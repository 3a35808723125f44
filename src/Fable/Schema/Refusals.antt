-- ===== src/Fable/Schema/Refusals.antt =====
-- Where `validate` does not do what the schema says: arrays given as objects, optional values of
-- several types, alternatives that throw, and properties that are set again.
use cloe.Prelude.{
  ℕ, suc, ◌≡◌, inl, inr, ◌++◌, refl, ap, Bool, true, false, Option, none, some, List, [], ◌∷◌, ◌&&◌,
  not, if◌then◌else◌, arith, All, is_some,
}
use cloe.Prelude.Texts.{Text, find_text}
use cloe.Fable.Json.{Json, JsonType, items, type_of, same}
use cloe.Fable.Schema.Interface.{
  Reason, wrong_type, Exception, conf_error, Verdict, returned, thrown, Schema,
}
use cloe.Fable.Schema.Scalars.{enum_schema, validate_enum}
use cloe.Fable.Schema.Containers.{
  Array, validate_object, validate_indices, unless_valid, parse_index,
}
use cloe.Fable.Schema.Composed.{
  Struct, set_property, insert_property, push_new, erase, Variant, validate_variant, validate_index,
  find_matches, add_match, Matches, validate_property, validate_additional,
}
use cloe.Fable.Schema.Accepts.{Agrees, accepts, fits}
use cloe.Fable.Schema.Agreement.{fits-items}
use cloe.Fable.Schema.Plain.{Plain, Plain-Agrees}

-- None of the values is accepted.
unfoldable pub none_accepted : Schema → List (Text × Json) → Bool
none_accepted p [] = true
none_accepted p (kv ∷ kvs) = not (accepts p.json_schema kv.1) && none_accepted p kvs

unless_valid-not :
    (b rest : Bool) (v : Verdict) (next : Option Reason → Verdict) (err : Option Reason)
    → Agrees false b v err
    → ((e : Option Reason) → (e' : Option Reason) × (next e ≡ returned rest e'))
    → (e' : Option Reason) × (unless_valid v next ≡ returned (not b && rest) e')
unfolding unless_valid
unless_valid-not true rest v next err agrees later = (err, rw agrees)
unless_valid-not false rest v next err (inl (r, e)) later =
    let (e', h) = later (some r) in (e', rw e h)
unless_valid-not false rest v next err (inr (t, e, h)) later = cc

indices-inverted :
    (a : Array) (kvs : List (Text × Json)) (err : Option Reason)
    → Plain false a.prototype
    → All (λ kv. fits kv.1 ≡ true) kvs
    → All (λ kv. is_some (parse_index a.count kv.0) ≡ true) kvs
    → (err' : Option Reason) × (validate_indices a kvs err
        ≡ returned (none_accepted a.prototype kvs) err')
unfolding validate_indices none_accepted
indices-inverted a [] err plain fit keys = (err, refl)
indices-inverted a (kv ∷ kvs) err plain fit keys = rw keys.0 (
    unless_valid-not (accepts a.prototype.json_schema kv.1) (none_accepted a.prototype kvs)
      (a.prototype.validate kv.1 err) (validate_indices a kvs) err
      (Plain-Agrees false a.prototype kv.1 err plain fit.0)
      (λ e. indices-inverted a kvs e plain fit.1 keys.1))

-- An array that need not be set as a whole, given as an object whose keys are all indices of it: if
-- the prototype is a plain schema that does not throw, `validate` returns true if and only if none
-- of the values is one that the prototype accepts.
pub validate_object-inverted :
    (a : Array) (c : Json) (err : Option Reason)
    → Plain false a.prototype
    → fits c ≡ true
    → All (λ kv. is_some (parse_index a.count kv.0) ≡ true) (items c)
    → (err' : Option Reason) × (validate_object a c err
        ≡ returned (none_accepted a.prototype (items c)) err')
unfolding validate_object
validate_object-inverted a c err plain fit keys =
    indices-inverted a (items c) err plain (fits-items c fit) keys

add_match-aborted :
    (b : Bool) (i : ℕ) (v : Verdict) (e : Exception)
    → Agrees false b v none
    → add_match i v (Matches.aborted e) ≡ Matches.aborted e
unfolding add_match
add_match-aborted true i v e agrees = rw agrees
add_match-aborted false i v e (inl (r, h)) = rw h
add_match-aborted false i v e (inr (t, x, h)) = cc

enum-throws :
    (keys : List Text) (c : Json) (err : Option Reason)
    → same (type_of c) JsonType.string ≡ false
    → validate_enum keys c err ≡ thrown (conf_error wrong_type)
unfolding validate_enum same type_of
enum-throws keys (Json.string s) err other = cc
enum-throws keys c err other = refl

find_matches-aborted :
    (i : ℕ) (required : Bool) (keys : List Text) (before behind : List Schema) (c : Json)
    → All (Plain false) before
    → fits c ≡ true
    → same (type_of c) JsonType.string ≡ false
    → find_matches i (before ++ enum_schema required keys ∷ behind) c
      ≡ Matches.aborted (conf_error wrong_type)
unfolding find_matches add_match enum_schema
find_matches-aborted i required keys [] behind c plain fit other =
    rw (enum-throws keys c none other)
find_matches-aborted i required keys (s ∷ before) behind c plain fit other =
    rw (find_matches-aborted (suc i) required keys before behind c plain.1 fit other) (
      add_match-aborted (accepts s.json_schema c) i (s.validate c none) (conf_error wrong_type)
        (Plain-Agrees false s c none plain.0 fit))

-- A variant with an enumeration for an alternative throws for every value that is no text, whatever
-- the alternatives behind it are, if those in front of it are plain and do not throw: also for a
-- value that another alternative accepts.
pub enum_alternative-throws :
    (required : Bool) (keys : List Text) (v : Variant) (before behind : List Schema) (c : Json)
    (err : Option Reason)
    → v.schemas ≡ before ++ enum_schema required keys ∷ behind
    → All (Plain false) before
    → fits c ≡ true
    → same (type_of c) JsonType.string ≡ false
    → validate_variant v c err ≡ thrown (conf_error wrong_type)
unfolding validate_variant validate_index
enum_alternative-throws required keys v before behind c err made plain fit other = ground (
  arith,
  made,
  ap (λ ss. find_matches 0 ss c) made,
  find_matches-aborted 0 required keys before behind c plain fit other,
)

-- Setting a property whose name is taken changes the validation of no property, its own included;
-- all that it does is to note whether the property is required, as the new schema says.
pub set_property-ignored :
    (k : Text) (s : Schema) (struct : Struct) (name : Text) (c : Json) (err : Option Reason)
    → is_some (find_text k struct.properties) ≡ true
    → (validate_property (set_property k s struct) name c err ≡ validate_property struct name c err)
      × ((set_property k s struct).properties_required ≡ (
          if s.is_required
          then push_new k struct.properties_required
          else erase k struct.properties_required))
unfolding set_property insert_property validate_property validate_additional
set_property-ignored k s struct name c err there = (rw there refl, refl)
