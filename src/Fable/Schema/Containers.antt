-- ===== src/Fable/Schema/Containers.antt =====
-- Schemas of optional values, vectors, arrays and maps, each over a prototype:
-- fable/include/fable/schema, optional.hpp, vector.hpp, array.hpp and map.hpp.
use cloe.Prelude.{
  ℕ, ◌*◌, ◌+◌, ◌-◌, Bool, true, false, Option, none, some, List, [], ◌∷◌, ◌||◌, ◌&&◌, not,
  if◌then◌else◌, ltb, leb, ◌==◌, is_some,
}
use cloe.Prelude.Texts.{Text}
use cloe.Fable.Json.{Json, JsonType, TypeName, elements, items, size, has}
use cloe.Fable.Schema.Interface.{
  Reason, wrong_type, too_few, too_many, bad_index, bad_name, no_regex, missing_property, Verdict,
  returned, thrown, set_error, validate_type, and_then, each, of_type, array_of, numbered,
  object_of, no_properties, one_of, document, no_documents, Schema,
}
use cloe.Fable.Schema.Scalars.{above, is_empty}

-- optional.hpp
unfoldable pub validate_optional : Schema → Json → Option Reason → Verdict
unfolding validate_type and_then
validate_optional p Json.null err = returned true err
validate_optional p c err = and_then (validate_type p.type c err) (p.validate c)

unfoldable pub optional_schema : Bool → Schema → Schema
unfolding validate_optional
optional_schema required p = record {
  type = p.type;
  is_variant = true;
  is_required = required;
  json_schema = one_of (document (of_type TypeName.null) (document p.json_schema no_documents));
  validate = validate_optional p;
}

-- vector.hpp; a maximum of none is the largest `size_t`.
pub record Vector : Type 0 where
  pub is_required : Bool
  pub option_extend : Bool
  pub min_items : ℕ
  pub max_items : Option ℕ
  pub prototype : Schema

unfoldable pub set_extend : Bool → Vector → Vector
set_extend value v = record v { option_extend = not value }

unfoldable pub extend_option : Bool → Vector → Vector
extend_option value v = record v { option_extend = value }

unfoldable pub validate_vector : Vector → Json → Option Reason → Verdict
unfolding validate_type and_then each size above elements set_error
validate_vector v c err = and_then (validate_type JsonType.array c err) λ err'.
    if ltb (size c) v.min_items
    then set_error too_few err'
    else if above v.max_items (size c)
    then set_error too_many err'
    else each v.prototype.validate (elements c) err'

unfoldable pub vector_schema : Vector → Schema
unfolding validate_vector
vector_schema v = record {
  type = JsonType.array;
  is_variant = false;
  is_required = v.is_required;
  json_schema = array_of v.prototype.json_schema v.min_items v.max_items;
  validate = validate_vector v;
}

-- array.hpp
pub record Array : Type 0 where
  pub is_required : Bool
  pub require_all : Bool
  pub count : ℕ
  pub prototype : Schema

abbrev pub is_digit : ℕ → Bool
is_digit ch = not (ltb ch b'0' || ltb b'9' ch)

unfoldable pub all_digits : Text → Bool
all_digits [] = true
all_digits (ch ∷ s) = is_digit ch && all_digits s

-- The number that the digits stand for, behind those that have been read; without a limit, since a
-- number above the limit of `stoul` is out of range too.
unfoldable pub stoul : ℕ → Text → ℕ
stoul value [] = value
stoul value (ch ∷ s) = stoul (value * 10 + (ch - b'0')) s

unfoldable pub leading_zero : Text → Bool
leading_zero [] = false
leading_zero (ch ∷ []) = false
leading_zero (ch ∷ d ∷ s) = ch == b'0'

-- None stands for the exception.
unfoldable pub parse_index : ℕ → Text → Option ℕ
unfolding all_digits stoul leading_zero is_empty
parse_index n s =
    if is_empty s
    then none
    else if leading_zero s
    then none
    else if not (all_digits s)
    then none
    else if leb n (stoul 0 s)
    then none
    else some (stoul 0 s)

unfoldable pub validate_array : Array → Json → Option Reason → Verdict
unfolding size each elements set_error
validate_array a c err =
    if not (size c == a.count)
    then set_error (if ltb (size c) a.count then too_few else too_many) err
    else each a.prototype.validate (elements c) err

-- What comes behind the validation of a value: the loop ends if it has been good.
unfoldable pub unless_valid : Verdict → (Option Reason → Verdict) → Verdict
unless_valid (returned true err) next = returned false err
unless_valid (returned false err) next = next err
unless_valid (thrown e) next = thrown e

unfoldable pub validate_indices : Array → List (Text × Json) → Option Reason → Verdict
unfolding parse_index set_error unless_valid
validate_indices a [] err = returned true err
validate_indices a (kv ∷ kvs) err =
    if is_some (parse_index a.count kv.0)
    then unless_valid (a.prototype.validate kv.1 err) (validate_indices a kvs)
    else set_error bad_index err

unfoldable pub validate_object : Array → Json → Option Reason → Verdict
unfolding validate_indices items
validate_object a c err = validate_indices a (items c) err

unfoldable pub array_type : Array → JsonType
array_type a = if a.require_all then JsonType.array else JsonType.null

unfoldable pub validate_either : Array → Json → Option Reason → Verdict
unfolding validate_array validate_object set_error
validate_either a (Json.array xs) err = validate_array a (Json.array xs) err
validate_either a (Json.object ms) err = validate_object a (Json.object ms) err
validate_either a c err = set_error wrong_type err

unfoldable pub validate_all : Array → Json → Option Reason → Verdict
unfolding validate_type and_then validate_array
validate_all a c err = and_then (validate_type JsonType.array c err) (validate_array a c)

unfoldable pub array_schema : Array → Schema
unfolding validate_all validate_either array_type
array_schema a = record {
  type = array_type a;
  is_variant = false;
  is_required = a.is_required;
  json_schema =
      let listed = array_of a.prototype.json_schema a.count (some a.count) in
      if a.require_all
      then listed
      else one_of (document listed (document (numbered a.prototype.json_schema) no_documents));
  validate = λ c err. if a.require_all then validate_all a c err else validate_either a c err;
}

-- map.hpp; `regex` makes a test of a pattern, or fails.
pub record MapSchema : Type 0 where
  pub is_required : Bool
  pub unique_properties : Bool
  pub min_properties : ℕ
  pub max_properties : Option ℕ
  pub pattern : Text
  pub required : List Text
  pub prototype : Schema
  pub regex : Text → Option (Text → Bool)

unfoldable pub all_present : Json → List Text → Option Reason → Verdict
unfolding has set_error
all_present c [] err = returned true err
all_present c (k ∷ ks) err =
    if has c k then all_present c ks err else set_error (missing_property k) err

unfoldable pub entries_valid : Schema → (Text → Bool) → List (Text × Json) → Option Reason → Verdict
unfolding and_then set_error
entries_valid p is_name [] err = returned true err
entries_valid p is_name (kv ∷ kvs) err =
    and_then (p.validate kv.1 err)
      λ err'. if is_name kv.0 then entries_valid p is_name kvs err' else set_error bad_name err'

unfoldable pub validate_entries : MapSchema → Json → Option Reason → Verdict
unfolding entries_valid is_empty set_error items
validate_entries m c err =
    if is_empty m.pattern
    then entries_valid m.prototype (λ name. true) (items c) err
    else elim (m.regex m.pattern) [
      | none ↦ set_error no_regex err
      | (some is_name) ↦ entries_valid m.prototype is_name (items c) err
    ]

unfoldable pub validate_map : MapSchema → Json → Option Reason → Verdict
unfolding validate_type and_then size above all_present validate_entries set_error
validate_map m c err = and_then (validate_type JsonType.object c err) λ err'.
    if ltb (size c) m.min_properties
    then set_error too_few err'
    else if above m.max_properties (size c)
    then set_error too_many err'
    else and_then (all_present c m.required err') (validate_entries m c)

unfoldable pub map_schema : MapSchema → Schema
unfolding validate_map
map_schema m = record {
  type = JsonType.object;
  is_variant = false;
  is_required = m.is_required;
  json_schema =
      object_of no_properties m.required m.prototype.json_schema m.min_properties m.max_properties;
  validate = validate_map m;
}
