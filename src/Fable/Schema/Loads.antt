-- ===== src/Fable/Schema/Loads.antt =====
-- What loading writes where the schema accepts: values, vectors, and the members of a struct.
use cloe.Prelude.{
  ap, sym, map, append_nil, append_one, ◌≡◌, ◌⊎◌, inl, inr, refl, subst, ◌∙◌, ◌++◌, Bool, true,
  false, Option, none, some, List, [], ◌∷◌, ◌&&◌, not, if◌then◌else◌, Bool-cases, All, arith,
  length, ltb,
}
use cloe.Prelude.Texts.{Text, eq_text, find_text}
use cloe.Fable.Json.{Json, elements}
use cloe.Fable.Schema.Interface.{
  schema_error, Reason, Schema, Verdict, anything, nothing, unexpected_property, validate_or_throw,
  fail,
}
use cloe.Fable.Schema.Containers.{Vector, vector_schema}
use cloe.Fable.Schema.Composed.{property_schemas, additional_schema}
use cloe.Fable.Schema.Values.{ok, Prototype}
use cloe.Fable.Schema.Objects.{
  Load, loaded, failed, Pointer, Interface, assign, pointed, fill, fill_from, vector_at,
  StructObject, struct_of, schemas_in, load_additional, load_property, load_properties, then_load,
}
use cloe.Fable.Schema.Accepts.{
  Agrees, accepts, accepts_member, members_in, has_name, all_in, at_most, fits,
}
use cloe.Fable.Schema.Agreement.{fits-elements}
use cloe.Fable.Schema.Plain.{Plain, PlainAdditional, prototype, Plain-Agrees}
use cloe.Fable.Schema.Written.{
  IsLens, Assigned, set_value, set_vector, Written, no_member, further_member, skipped_member,
}
use cloe.Fable.Schema.Ready.{Ready}

-- Whatever the schema accepts is loaded, and written as it says.
abbrev pub Loads : {S : Type 0} → Interface S → Type 1
Loads {S} i =
    (c : Json) (s : S)
    → accepts i.schema.json_schema c ≡ true
    → fits c ≡ true
    → (s' : S) × (i.from_conf c s ≡ loaded s') × Assigned i c s s'

assign-ok :
    {S T : Type 0} (ptr : Pointer S T) (p : Prototype T) (c : Json) (s : S) (x : T)
    → p.deserialize c ≡ ok x
    → assign ptr p c s ≡ loaded (ptr.set x s)
unfolding assign
assign-ok ptr p c s x e = ground arith

pub pointed-Loads :
    {S T : Type 0} (ptr : Pointer S T) (p : Prototype T) → Ready p → Loads (pointed ptr p)
unfolding pointed
pointed-Loads ptr p ready c s h fit =
    let (x, e) = ready c h fit in (ptr.set x s, assign-ok ptr p c s x e, set_value ptr p c s x e)

pub and-both : (a b : Bool) → (a && b) ≡ true → (a ≡ true) × (b ≡ true)
and-both a b h = ground arith

-- What is accepted is validated.
pub Plain-valid :
    (m : Bool) (s : Schema) (c : Json) (err : Option Reason)
    → Plain m s
    → fits c ≡ true
    → accepts s.json_schema c ≡ true
    → s.validate c err ≡ Verdict.returned true err
Plain-valid m s c err plain fit h =
    subst (λ b. Agrees m b (s.validate c err) err) h (Plain-Agrees m s c err plain fit)

valid-passes :
    (m : Bool) (s : Schema) (c : Json)
    → Plain m s
    → fits c ≡ true
    → accepts s.json_schema c ≡ true
    → validate_or_throw s c ≡ none
unfolding validate_or_throw fail
valid-passes m s c plain fit h = ground (arith, Plain-valid m s c none plain fit h)

read_first :
    {T : Type 0} (p : Prototype T) (c : Json) (cs : List Json) (x : T) (xs : List T)
    → p.deserialize c ≡ ok x
    → map p.deserialize cs ≡ map ok xs
    → map p.deserialize (c ∷ cs) ≡ map ok (x ∷ xs)
read_first p c cs x xs e read = ap (λ r. r ∷ map p.deserialize cs) e ∙ ap (λ l. ok x ∷ l) read

module _ {S : Type 0} where
  fill-step :
      {T : Type 0} (ptr : Pointer S (List T)) (p : Prototype T) (c : Json) (cs : List Json) (s : S)
      (x : T)
      → p.deserialize c ≡ ok x
      → fill ptr p (c ∷ cs) s ≡ fill ptr p cs (ptr.set (ptr.get s ++ x ∷ []) s)
  unfolding fill
  fill-step ptr p c cs s x e = ground arith

  -- The values that are read are put behind those that are there.
  fill-loaded :
      {T : Type 0} (ptr : Pointer S (List T)) (p : Prototype T) (cs : List Json) (s : S)
      → IsLens ptr
      → Ready p
      → all_in (accepts p.schema.json_schema) cs ≡ true
      → All (λ c. fits c ≡ true) cs
      → (xs : List T) × (map p.deserialize cs ≡ map ok xs)
        × (fill ptr p cs s ≡ loaded (ptr.set (ptr.get s ++ xs) s))
  unfolding fill all_in
  fill-loaded ptr p [] s lens ready h fit =
      ([], refl, ap loaded (sym (ap (λ l. ptr.set l s) (append_nil (ptr.get s)) ∙ lens.set-get s)))
  fill-loaded ptr p (c ∷ cs) s lens ready h fit =
      let (x, e) = ready c (and-both _ _ h).0 fit.0 in
      let (xs, read, rest) =
        fill-loaded ptr p cs (ptr.set (ptr.get s ++ x ∷ []) s) lens ready (and-both _ _ h).1
          fit.1 in
      (
        x ∷ xs,
        read_first p c cs x xs e read,
        fill-step ptr p c cs s x e
            ∙ rest
            ∙ ap loaded (
                lens.set-set (ptr.get s ++ x ∷ []) _ s
                ∙ ap (λ l. ptr.set (l ++ xs) s) (lens.get-set (ptr.get s ++ x ∷ []) s)
                ∙ ap (λ l. ptr.set l s) (append_one (ptr.get s) x xs)),
      )

  -- A vector that is not extended is emptied first.
  filled :
      {T : Type 0} (ptr : Pointer S (List T)) (extends : Bool) (xs : List T) (s : S)
      → IsLens ptr
      → let s₀ = if extends then s else ptr.set [] s in
        ptr.set (ptr.get s₀ ++ xs) s₀ ≡ ptr.set ((if extends then ptr.get s else []) ++ xs) s
  filled ptr true xs s lens = refl
  filled ptr false xs s lens =
      lens.set-set [] _ s ∙ ap (λ l. ptr.set (l ++ xs) s) (lens.get-set [] s)

  -- What a member of the configuration writes.
  abbrev Wrote : List (Text × Interface S) → Text → Json → S → S → Type 1
  Wrote ps k c s s' =
      (cs : List (Text × Json)) (s'' : S) → Written ps cs s' s'' → Written ps ((k, c) ∷ cs) s s''

  abbrev Found : List (Text × Interface S) → Text → Json → S → S → Type 1
  Found ps k c s s' =
      ((i : Interface S) × (find_text k ps ≡ some i) × Assigned i c s s')
      ⊎ ((find_text k ps ≡ none) × (s' ≡ s))

  Found-Wrote :
      (ps : List (Text × Interface S)) (k : Text) (c : Json) (s s' : S)
      → Found ps k c s s'
      → Wrote ps k c s s'
  Found-Wrote ps k c s s' (inl (i, e, a)) cs s'' w = further_member ps k c cs s s' s'' i e a w
  Found-Wrote ps k c s s' (inr (e, same)) cs s'' w =
      skipped_member ps k c cs s s'' e (subst (λ x. Written ps cs x s'') same w)

  member-loaded :
      (ps : List (Text × Interface S)) (other : Json → Bool) (k : Text) (c : Json) (s : S)
      (v : Load S)
      → All (λ p. Loads p.1) ps
      → fits c ≡ true
      → (other c ≡ true → v ≡ loaded s)
      → accepts_member (property_schemas (schemas_in ps)) other k c ≡ true
      → (s' : S) × (elim (find_text k ps) [ (some i) ↦ i.from_conf c s | none ↦ v ] ≡ loaded s')
        × Found ps k c s s'
  unfolding find_text accepts_member property_schemas schemas_in
  member-loaded [] other k c s v loads fit more h = (s, more h, inr (refl, refl))
  member-loaded (p ∷ ps) other k c s v loads fit more h = elim (Bool-cases (eq_text p.0 k)) [
    | inl e ↦ let (s', l, a) = loads.0 c s (rw e at h) fit in rw e (s', l, inl (p.1, refl, a))
    | inr e ↦ rw e (member-loaded ps other k c s v loads.1 fit more (rw e at h))
  ]

  pub vector-Loads :
      {T : Type 0} (ptr : Pointer S (List T)) (v : Vector) (p : Prototype T)
      → IsLens ptr
      → Ready p
      → Loads (vector_at ptr v p)
  unfolding vector_schema accepts has_name fill_from vector_at
  vector-Loads ptr v p lens ready (Json.array xs) s h fit =
      let (read, each, e) =
        fill-loaded ptr p (elements (Json.array xs)) (if v.option_extend then s else ptr.set [] s)
          lens ready
          (and-both (at_most v.max_items (length (elements (Json.array xs)))) _
            (and-both (not (ltb (length (elements (Json.array xs))) v.min_items)) _ h).1).1
          (fits-elements (Json.array xs) fit) in
      (
        ptr.set ((if v.option_extend then ptr.get s else []) ++ read) s,
        e ∙ ap loaded (filled ptr v.option_extend read s lens),
        set_vector ptr v p (Json.array xs) s read each,
      )
  vector-Loads ptr v p lens ready c s h fit = cc

  prototype-loaded :
      (p : Option Schema) (open_ended : Bool) (k : Text) (c : Json) (s : S)
      → PlainAdditional true p
      → fits c ≡ true
      → accepts
          (elim p [ (some q) ↦ q.json_schema | none ↦ if open_ended then anything else nothing ])
          c
        ≡ true
      → elim p [
        | (some q) ↦ elim (validate_or_throw q c) [ none ↦ loaded s | (some e) ↦ failed e s ]
        | none ↦ if open_ended then loaded s else failed (schema_error (unexpected_property k)) s
      ]
        ≡ loaded s
  unfolding accepts
  prototype-loaded none true k c s plain fit h = refl
  prototype-loaded none false k c s plain fit h = cc
  prototype-loaded (some q) open_ended k c s (prototype q' plain) fit h =
      rw (valid-passes true q c plain fit h)

  additional-loaded :
      (o : StructObject S) (k : Text) (c : Json) (s : S)
      → PlainAdditional true o.additional_prototype
      → fits c ≡ true
      → accepts (additional_schema (struct_of o)) c ≡ true
      → load_additional o k c s ≡ loaded s
  unfolding load_additional additional_schema struct_of
  additional-loaded o k c s plain fit h =
      prototype-loaded o.additional_prototype o.additional_properties k c s plain fit h

  step-loaded :
      (o : StructObject S) (kv : Text × Json) (kvs : List (Text × Json)) (s s' : S)
      → load_property o kv.0 kv.1 s ≡ loaded s'
      → load_properties o (kv ∷ kvs) s ≡ load_properties o kvs s'
  unfolding load_properties then_load
  step-loaded o kv kvs s s' one = rw one refl

  pub properties-loaded :
      (o : StructObject S) (kvs : List (Text × Json)) (s : S)
      → All (λ p. Loads p.1) o.properties
      → PlainAdditional true o.additional_prototype
      → All (λ kv. fits kv.1 ≡ true) kvs
      → members_in
          (accepts_member
            (property_schemas (schemas_in o.properties))
            (accepts (additional_schema (struct_of o))))
          kvs
        ≡ true
      → (s' : S) × (load_properties o kvs s ≡ loaded s') × Written o.properties kvs s s'
  unfolding load_properties load_property members_in
  properties-loaded o [] s loads plain fit h = (s, refl, no_member o.properties s)
  properties-loaded o (kv ∷ kvs) s loads plain fit h =
      let tests =
        and-both
          (accepts_member (property_schemas (schemas_in o.properties))
            (accepts (additional_schema (struct_of o))) kv.0 kv.1)
          _ h in
      let (s', one, found) =
        member-loaded o.properties (accepts (additional_schema (struct_of o))) kv.0 kv.1 s
          (load_additional o kv.0 kv.1 s) loads fit.0 (additional-loaded o kv.0 kv.1 s plain fit.0)
          tests.0 in
      let (s'', rest, w) = properties-loaded o kvs s' loads plain fit.1 tests.1 in
      (
        s'',
        step-loaded o kv kvs s s' one ∙ rest,
        Found-Wrote o.properties kv.0 kv.1 s s' found kvs s'' w,
      )
