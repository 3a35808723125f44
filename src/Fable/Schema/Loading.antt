-- ===== src/Fable/Schema/Loading.antt =====
-- Where the schema accepts the configuration, an object is loaded; it is loaded as a whole or not
-- at all.
use cloe.Prelude.{◌≡◌, refl, true, none, List, [], ◌∷◌, not, All, arith, length, ltb}
use cloe.Prelude.Texts.{Text}
use cloe.Fable.Json.{Json, TypeName, items}
use cloe.Fable.Schema.Composed.{struct_schema}
use cloe.Fable.Schema.Objects.{
  loaded, StructObject, struct_of, schemas_in, load_properties, first_missing, as_schema_error,
  load_struct, struct_at,
}
use cloe.Fable.Schema.Accepts.{accepts, has_all, has_name, at_most, fits}
use cloe.Fable.Schema.Agreement.{fits-items}
use cloe.Fable.Schema.Plain.{Plain, PlainProperties, PlainAdditional}
use cloe.Fable.Schema.Written.{set_struct, Written}
use cloe.Fable.Schema.Loads.{Loads, and-both, properties-loaded}

none_missing : (c : Json) (ks : List Text) → has_all c ks ≡ true → first_missing c ks ≡ none
unfolding has_all first_missing
none_missing c [] h = refl
none_missing c (k ∷ ks) h = ground (arith, none_missing c ks)

module _ {S : Type 0} (o : StructObject S) (loads : All (λ p. Loads p.1) o.properties)
    (named : PlainProperties true (schemas_in o.properties))
    (further : PlainAdditional true o.additional_prototype) where
  load_struct-ok :
      (c : Json) (s s' : S)
      → first_missing c o.properties_required ≡ none
      → load_properties o (items c) s ≡ loaded s'
      → load_struct o c s ≡ loaded s'
  unfolding load_struct as_schema_error
  load_struct-ok c s s' present e = ground (arith, present, e)

  load_struct-loaded :
      (c : Json) (s : S)
      → accepts (struct_schema (struct_of o)).json_schema c ≡ true
      → fits c ≡ true
      → (s' : S) × (load_struct o c s ≡ loaded s') × Written o.properties (items c) s s'
  unfolding struct_schema accepts struct_of at_most
  load_struct-loaded c s h fit =
      let sized = and-both (has_name TypeName.object c) _ h in
      let limited = and-both (not (ltb (length (items c)) 0)) _ sized.1 in
      let checked = and-both (has_all c o.properties_required) _ limited.1 in
      let (s', e, w) = properties-loaded o (items c) s loads further (fits-items c fit) checked.1 in
      (s', load_struct-ok c s s' (none_missing c o.properties_required checked.0) e, w)

  -- A struct can be a property again.
  pub struct-Loads : Loads (struct_at o)
  unfolding struct_at
  struct-Loads c s h fit =
      let (s', e, w) = load_struct-loaded c s h fit in (s', e, set_struct o c s s' w)
