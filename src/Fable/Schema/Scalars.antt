-- ===== src/Fable/Schema/Scalars.antt =====
-- Schemas of truth values, texts, enumerations and constants, and the one that ignores its input:
-- fable/include/fable/schema and fable/src/fable/schema, boolean.cpp, string.cpp, enum.hpp,
-- const.hpp and ignore.hpp.
use cloe.Prelude.{
  ℕ, Bool, true, false, Option, none, some, List, [], ◌∷◌, ◌||◌, ◌&&◌, not, if◌then◌else◌, length,
  ltb,
}
use cloe.Prelude.Texts.{Text, eq_text}
use cloe.Fable.Json.{Json, JsonType, TypeName}
use cloe.Fable.Environment
use cloe.Fable.Schema.Interface.{
  Reason, not_interpolated, too_short, too_long, no_pattern, not_enumerated, not_constant,
  wrong_type, conf_error, Verdict, returned, thrown, set_error, validate_type, anything, of_type,
  text_within, constant, Schema,
}

-- boolean.cpp
unfoldable pub validate_boolean : Json → Option Reason → Verdict
unfolding validate_type
validate_boolean = validate_type JsonType.boolean

unfoldable pub boolean_schema : Bool → Schema
unfolding validate_boolean
boolean_schema required = record {
  type = JsonType.boolean;
  is_variant = false;
  is_required = required;
  json_schema = of_type TypeName.boolean;
  validate = validate_boolean;
}

-- string.hpp; a maximal length of none is the largest `size_t`, and the functions are those of
-- environment.cpp, with its environment, and of the regular expressions of the standard library.
pub record String : Type 0 where
  pub is_required : Bool
  pub interpolate : Bool
  pub min_length : ℕ
  pub max_length : Option ℕ
  pub pattern : Text
  pub enum_of : List Text
  pub interpolate_vars : Text → Environment.Result
  pub regex_match : Text → Text → Bool

unfoldable pub not_empty : String → String
not_empty s = record s { min_length = 1 }

-- `std::find` in a vector.
unfoldable pub is_among : Text → List Text → Bool
is_among x [] = false
is_among x (y ∷ ys) = eq_text y x || is_among x ys

unfoldable pub is_empty {ℓ} : {A : Type ℓ} → List A → Bool
is_empty [] = true
is_empty (x ∷ xs) = false

unfoldable pub above : Option ℕ → ℕ → Bool
above none n = false
above (some m) n = ltb m n

unfoldable pub validate_text : String → Text → Option Reason → Verdict
unfolding above is_empty is_among set_error
validate_text s src err =
    if ltb (length src) s.min_length
    then set_error too_short err
    else if above s.max_length (length src)
    then set_error too_long err
    else if not (is_empty s.pattern) && not (s.regex_match s.pattern src)
    then set_error no_pattern err
    else if not (is_empty s.enum_of) && not (is_among src s.enum_of)
    then set_error not_enumerated err
    else returned true err

unfoldable pub validate_string : String → Json → Option Reason → Verdict
unfolding validate_type validate_text set_error
validate_string s (Json.string src) err =
    if s.interpolate
    then elim (s.interpolate_vars src) [
      | (Environment.returned src') ↦ validate_text s src' err
      | (Environment.thrown e) ↦ set_error not_interpolated err
    ]
    else validate_text s src err
validate_string s c err = validate_type JsonType.string c err

unfoldable pub string_schema : String → Schema
unfolding validate_string
string_schema s = record {
  type = JsonType.string;
  is_variant = false;
  is_required = s.is_required;
  json_schema = text_within s.min_length s.max_length s.enum_of;
  validate = validate_string s;
}

-- enum.hpp; `get` throws where there is no text.
unfoldable pub validate_enum : List Text → Json → Option Reason → Verdict
unfolding is_among set_error
validate_enum keys (Json.string s) err =
    if is_among s keys then returned true err else set_error not_enumerated err
validate_enum keys c err = thrown (conf_error wrong_type)

unfoldable pub enum_schema : Bool → List Text → Schema
unfolding validate_enum
enum_schema required keys = record {
  type = JsonType.string;
  is_variant = false;
  is_required = required;
  json_schema = text_within 0 none keys;
  validate = validate_enum keys;
}

-- const.hpp, of a text, with the prototype that a text has.
unfoldable pub validate_const : Text → Json → Option Reason → Verdict
unfolding set_error
validate_const c (Json.string s) err =
    if eq_text s c then returned true err else set_error not_constant err
validate_const c j err = thrown (conf_error wrong_type)

unfoldable pub const_schema : Bool → Text → Schema
unfolding validate_const
const_schema required c = record {
  type = JsonType.string;
  is_variant = false;
  is_required = required;
  json_schema = constant c;
  validate = validate_const c;
}

-- ignore.hpp
unfoldable pub validate_ignore : Json → Option Reason → Verdict
validate_ignore c err = returned true err

unfoldable pub ignore_schema : Bool → JsonType → Schema
unfolding validate_ignore
ignore_schema required t = record {
  type = t;
  is_variant = false;
  is_required = required;
  json_schema = anything;
  validate = validate_ignore;
}
