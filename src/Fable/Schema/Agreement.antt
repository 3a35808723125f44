-- ===== src/Fable/Schema/Agreement.antt =====
-- How verdicts agree with what is accepted, in the order in which the checks of a schema come.
use cloe.Prelude.{
  ◌≡◌, inl, inr, refl, Bool, true, false, Option, List, [], ◌∷◌, All, ◌&&◌, not, if◌then◌else◌,
  Bool-cases, arith,
}
use cloe.Prelude.Texts.{Text}
use cloe.Fable.Json.{
  Json, JsonType, Items, no_items, item, Members, no_members, member, elements, items, has,
  to_string,
}
use cloe.Fable.Schema.Interface.{
  Reason, wrong_type, missing_property, Verdict, returned, and_then, set_error, validate_type, each,
}
use cloe.Fable.Schema.Containers.{all_present}
use cloe.Fable.Schema.Accepts.{Agrees, has_name, all_in, has_all, fits}

pub and_then-Agrees :
    (m a b : Bool) (v : Verdict) (next : Option Reason → Verdict) (err : Option Reason)
    → Agrees m a v err
    → Agrees m b (next err) err
    → Agrees m (a && b) (and_then v next) err
unfolding and_then
and_then-Agrees m true true v next err h k = ground (arith, h, k)
and_then-Agrees m true false v next err h (inl (r, k)) = inl (r, ground (arith, h, k))
and_then-Agrees m true false v next err h (inr (t, e, k)) = inr (t, e, ground (arith, h, k))
and_then-Agrees m false b v next err (inl (r, h)) k = inl (r, ground (arith, h))
and_then-Agrees m false b v next err (inr (t, e, h)) k = inr (t, e, ground (arith, h))

-- The same, where the second verdict is only looked at behind a good first one.
pub guard-Agrees :
    (m b stop : Bool) (r : Reason) (v : Verdict) (err : Option Reason)
    → Agrees m b v err
    → Agrees m (not stop && b) (if stop then set_error r err else v) err
unfolding set_error
guard-Agrees m b true r v err k = inl (r, refl)
guard-Agrees m b false r v err k = k

-- Where nothing throws, nothing may.
pub weaken-Agrees :
    (m b : Bool) (v : Verdict) (err : Option Reason) → Agrees false b v err → Agrees m b v err
weaken-Agrees m true v err h = h
weaken-Agrees m false v err (inl h) = inl h
weaken-Agrees m false v err (inr (t, e, h)) = cc

pub wrong_type-Agrees :
    (m : Bool) (err : Option Reason) → Agrees m false (set_error wrong_type err) err
unfolding set_error
wrong_type-Agrees m err = inl (wrong_type, refl)

-- The elements of a value, and its members, fit as it does.
items_fit-All :
    (xs : Items) → fits (Json.array xs) ≡ true → All (λ x. fits x ≡ true) (elements (Json.array xs))
unfolding fits elements
items_fit-All no_items h = tt
items_fit-All (item x xs) h = ground (arith, items_fit-All xs)

members_fit-All :
    (ms : Members)
    → fits (Json.object ms) ≡ true
    → All (λ kv. fits kv.1 ≡ true) (items (Json.object ms))
unfolding fits items
members_fit-All no_members h = tt
members_fit-All (member k x ms) h = ground (arith, members_fit-All ms)

pub fits-elements : (c : Json) → fits c ≡ true → All (λ x. fits x ≡ true) (elements c)
unfolding elements
fits-elements (Json.array xs) h = items_fit-All xs h
fits-elements Json.null h = tt
fits-elements (Json.boolean b) h = tt
fits-elements (Json.number_unsigned n) h = tt
fits-elements (Json.number_integer i) h = tt
fits-elements (Json.number_float f) h = tt
fits-elements (Json.string s) h = tt
fits-elements (Json.object ms) h = tt

pub fits-items : (c : Json) → fits c ≡ true → All (λ kv. fits kv.1 ≡ true) (items c)
unfolding items
fits-items (Json.object ms) h = members_fit-All ms h
fits-items Json.null h = tt
fits-items (Json.boolean b) h = tt
fits-items (Json.number_unsigned n) h = tt
fits-items (Json.number_integer i) h = tt
fits-items (Json.number_float f) h = tt
fits-items (Json.string s) h = tt
fits-items (Json.array xs) h = tt

-- A type with a name of its own.
abbrev pub is_named : JsonType → Bool
is_named JsonType.number_integer = false
is_named JsonType.number_unsigned = false
is_named JsonType.number_float = false
is_named t = true

pub test-Agrees :
    (m b : Bool) (r : Reason) (err : Option Reason)
    → Agrees m b (if b then returned true err else set_error r err) err
unfolding set_error
test-Agrees m true r err = refl
test-Agrees m false r err = inl (r, refl)

pub negative_test-Agrees :
    (m stop : Bool) (r : Reason) (err : Option Reason)
    → Agrees m (not stop) (if stop then set_error r err else returned true err) err
unfolding set_error
negative_test-Agrees m true r err = inl (r, refl)
negative_test-Agrees m false r err = refl

named_type :
    (t : JsonType) (c : Json) (err : Option Reason)
    → is_named t ≡ true
    → validate_type t c err
      ≡ (if has_name (to_string t) c then returned true err else set_error wrong_type err)
unfolding validate_type has_name to_string
named_type JsonType.null Json.null err h = refl
named_type t c err h = ground arith

pub validate_type-Agrees :
    (m : Bool) (t : JsonType) (c : Json) (err : Option Reason)
    → is_named t ≡ true
    → Agrees m (has_name (to_string t) c) (validate_type t c err) err
validate_type-Agrees m t c err h =
    rw (named_type t c err h) (test-Agrees m (has_name (to_string t) c) wrong_type err)

-- A walk over the elements.
pub each-Agrees :
    (m : Bool) (test : Json → Bool) (validate : Json → Option Reason → Verdict) (xs : List Json)
    (err : Option Reason)
    → ((x : Json) (e : Option Reason) → fits x ≡ true → Agrees m (test x) (validate x e) e)
    → All (λ x. fits x ≡ true) xs
    → Agrees m (all_in test xs) (each validate xs err) err
unfolding all_in each
each-Agrees m test validate [] err judged fit = refl
each-Agrees m test validate (x ∷ xs) err judged fit =
    and_then-Agrees m (test x) (all_in test xs) (validate x err) (each validate xs) err
      (judged x err fit.0) (each-Agrees m test validate xs err judged fit.1)

pub all_present-Agrees :
    (m : Bool) (c : Json) (ks : List Text) (err : Option Reason)
    → Agrees m (has_all c ks) (all_present c ks err) err
unfolding has_all all_present set_error
all_present-Agrees m c [] err = refl
all_present-Agrees m c (k ∷ ks) err = elim (Bool-cases (has c k)) [
  | inl present ↦ rw present (all_present-Agrees m c ks err)
  | inr missing ↦ rw missing (inl (missing_property k, refl))
]
