-- ===== src/Fable/Schema/JudgedComposed.antt =====
-- Schemas of objects and variants validate just what their documents accept, if their parts do; the
-- alternatives of a variant must not throw.
use cloe.Prelude.{
  ℕ, suc, ◌+◌, ◌≡◌, inl, inr, refl, sym, subst, Bool, true, false, Option, none, some, List, [],
  ◌∷◌, not, if◌then◌else◌, Bool-cases, arith, All, length, ltb, ◌==◌, is_some,
}
use cloe.Prelude.Texts.{Text, eq_text, find_text}
use cloe.Fable.Json.{Json, JsonType, TypeName, items, to_string}
use cloe.Fable.Schema.Interface.{
  one_of, any_of, Reason, no_variant, many_variants, unexpected_property, anything, nothing,
  Verdict, returned, set_error, validate_type, Schema,
}
use cloe.Fable.Schema.Containers.{all_present}
use cloe.Fable.Schema.Composed.{
  Struct, struct_schema, validate_struct, validate_properties, validate_property,
  validate_additional, property_schemas, additional_schema, Variant, variant_schema,
  validate_variant, validate_index, find_matches, add_match, choose, Matches, matches, Index, index,
  schemas_of,
}
use cloe.Fable.Schema.Accepts.{
  Agrees, Judges, accepts, accepting, accepts_member, members_in, has_name, has_all, fits, at_most,
}
use cloe.Fable.Schema.Agreement.{
  and_then-Agrees, validate_type-Agrees, all_present-Agrees, fits-items,
}

-- The prototype of further properties, if there is one.
abbrev pub AdditionalJudges : Bool → Option Schema → Type 0
AdditionalJudges m none = Unit
AdditionalJudges m (some p) = Judges m p

additional-Agrees :
    (m open_ended : Bool) (p : Option Schema) (k : Text) (x : Json) (err : Option Reason)
    → AdditionalJudges m p
    → fits x ≡ true
    → Agrees m
        (accepts
          (elim p [ (some q) ↦ q.json_schema | none ↦ if open_ended then anything else nothing ])
          x)
        (elim p [
          | (some q) ↦ q.validate x err
          | none ↦ if open_ended then returned true err else set_error (unexpected_property k) err
        ])
        err
unfolding accepts set_error
additional-Agrees m open_ended (some q) k x err judged fit = judged x err fit
additional-Agrees m true none k x err judged fit = refl
additional-Agrees m false none k x err judged fit = inl (unexpected_property k, refl)

named-Agrees :
    (m : Bool) (ps : List (Text × Schema)) (other : Json → Bool) (k : Text) (x : Json) (v : Verdict)
    (err : Option Reason)
    → All (λ p. Judges m p.1) ps
    → fits x ≡ true
    → Agrees m (other x) v err
    → Agrees m
        (accepts_member (property_schemas ps) other k x)
        (elim (find_text k ps) [ (some s) ↦ s.validate x err | none ↦ v ])
        err
unfolding accepts_member property_schemas find_text
named-Agrees m [] other k x v err judged fit agrees = agrees
named-Agrees m (p ∷ ps) other k x v err judged fit agrees = elim (Bool-cases (eq_text p.0 k)) [
  | inl e ↦ rw e (judged.0 x err fit)
  | inr e ↦ rw e (named-Agrees m ps other k x v err judged.1 fit agrees)
]

properties-Agrees :
    (m : Bool) (struct : Struct) (kvs : List (Text × Json)) (err : Option Reason)
    → All (λ p. Judges m p.1) struct.properties
    → AdditionalJudges m struct.additional_prototype
    → All (λ kv. fits kv.1 ≡ true) kvs
    → Agrees m
        (members_in
          (accepts_member (property_schemas struct.properties) (accepts (additional_schema struct)))
          kvs)
        (validate_properties struct kvs err)
        err
unfolding members_in validate_properties validate_property validate_additional additional_schema
properties-Agrees m struct [] err judged more fit = refl
properties-Agrees m struct (kv ∷ kvs) err judged more fit =
    and_then-Agrees m _ _ (validate_property struct kv.0 kv.1 err) _ err
      (named-Agrees m struct.properties (accepts (additional_schema struct)) kv.0 kv.1
        (validate_additional struct kv.0 kv.1 err) err judged fit.0
        (additional-Agrees m struct.additional_properties struct.additional_prototype kv.0 kv.1 err
          more fit.0))
      (properties-Agrees m struct kvs err judged more fit.1)

ltb_zero : (n : ℕ) → ltb n 0 ≡ false
ltb_zero n = ground arith

pub struct_schema-Judges :
    (m : Bool) (struct : Struct)
    → All (λ p. Judges m p.1) struct.properties
    → AdditionalJudges m struct.additional_prototype
    → Judges m (struct_schema struct)
unfolding struct_schema accepts at_most validate_struct to_string
struct_schema-Judges m struct judged more c err fit = rw (ltb_zero (length (items c))) (
    and_then-Agrees m (has_name TypeName.object c) _ (validate_type JsonType.object c err) _ err
      (validate_type-Agrees m JsonType.object c err refl)
      (and_then-Agrees m (has_all c struct.properties_required) _
        (all_present c struct.properties_required err) _ err
        (all_present-Agrees m c struct.properties_required err)
        (properties-Agrees m struct (items c) err judged more (fits-items c fit))))

add_match-counts :
    (b : Bool) (i : ℕ) (v : Verdict) (later : Matches) (is : List ℕ) (n : ℕ)
    → Agrees false b v none
    → later ≡ matches is
    → length is ≡ n
    → (js : List ℕ) × (add_match i v later ≡ matches js) × (length js ≡ (if b then 1 else 0) + n)
unfolding add_match
add_match-counts true i v later is n agrees found counted =
    (i ∷ is, rw (agrees, found), omega arith)
add_match-counts false i v later is n (inl (r, e)) found counted = (is, rw (e, found), omega arith)
add_match-counts false i v later is n (inr (t, e, h)) found counted = cc

-- Where no alternative throws, as many match as accept the value.
find_matches-accepting :
    (i : ℕ) (ss : List Schema) (c : Json)
    → All (Judges false) ss
    → fits c ≡ true
    → (is : List ℕ) × (find_matches i ss c ≡ matches is) × (length is ≡ accepting (schemas_of ss) c)
unfolding find_matches schemas_of accepting
find_matches-accepting i [] c judged fit = ([], refl, refl)
find_matches-accepting i (s ∷ ss) c judged fit =
    let (is, found, counted) = find_matches-accepting (suc i) ss c judged.1 fit in
    add_match-counts (accepts s.json_schema c) i (s.validate c none) (find_matches (suc i) ss c) is
      (accepting (schemas_of ss) c) (judged.0 c none fit) found counted

chosen : Bool → List ℕ → Bool
chosen unique is = if unique then length is == 1 else not (length is == 0)

two_or_more : (n : ℕ) → (suc (suc n) == 1) ≡ false
two_or_more n = ground arith

not_empty : (n : ℕ) → not (suc (suc n) == 0) ≡ true
not_empty n = ground arith

verdict_of : Index → Verdict
verdict_of (index i err') = Verdict.returned (is_some i) err'
verdict_of (Index.aborted e) = Verdict.thrown e

choose-Agrees :
    (m unique : Bool) (is : List ℕ) (err : Option Reason)
    → Agrees m (chosen unique is) (verdict_of (choose unique is err)) err
unfolding choose chosen verdict_of
choose-Agrees m true [] err = inl (no_variant, refl)
choose-Agrees m false [] err = inl (no_variant, refl)
choose-Agrees m true (i ∷ []) err = refl
choose-Agrees m false (i ∷ []) err = refl
choose-Agrees m true (i ∷ j ∷ is) err =
    subst (λ b. Agrees m b (Verdict.returned false (some many_variants)) err)
      (sym (two_or_more (length is))) (inl (many_variants, refl))
choose-Agrees m false (i ∷ j ∷ is) err =
    subst (λ b. Agrees m b (Verdict.returned true err) err) (sym (not_empty (length is))) refl

accepts-chosen :
    (unique : Bool) (ss : List Schema) (c : Json) (is : List ℕ)
    → length is ≡ accepting (schemas_of ss) c
    → accepts (if unique then one_of (schemas_of ss) else any_of (schemas_of ss)) c
      ≡ chosen unique is
unfolding accepts chosen
accepts-chosen true ss c is counted = rw counted
accepts-chosen false ss c is counted = rw counted

validate_variant-choose :
    (v : Variant) (c : Json) (err : Option Reason) (is : List ℕ)
    → find_matches 0 v.schemas c ≡ matches is
    → validate_variant v c err ≡ verdict_of (choose v.unique_match is err)
unfolding validate_variant validate_index verdict_of
validate_variant-choose v c err is found = ground arith

pub variant_schema-Judges :
    (m : Bool) (v : Variant) → All (Judges false) v.schemas → Judges m (variant_schema v)
unfolding variant_schema
variant_schema-Judges m v judged c err fit =
    let (is, found, counted) = find_matches-accepting 0 v.schemas c judged fit in
    rw
      (
        accepts-chosen v.unique_match v.schemas c is counted,
        validate_variant-choose v c err is found,
      )
      (choose-Agrees m v.unique_match is err)
