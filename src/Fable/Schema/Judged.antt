-- ===== src/Fable/Schema/Judged.antt =====
-- Each class of schemas validates just what its document accepts, if its prototypes do.
use cloe.Prelude.{
  ℕ, ◌≡◌, inr, refl, Bool, true, false, Option, none, some, List, [], ◌∷◌, ◌&&◌, not, arith, length,
  ltb,
}
use cloe.Prelude.Texts.{Text, eq_text}
use cloe.Fable.Json.{Json, JsonType, to_string}
use cloe.Fable.Schema.Interface.{
  Reason, wrong_type, too_short, too_long, not_enumerated, not_constant, conf_error,
}
use cloe.Fable.Schema.Scalars.{
  String, boolean_schema, validate_text, validate_string, string_schema, is_empty, is_among, above,
  validate_enum, enum_schema, validate_const, const_schema, ignore_schema,
}
use cloe.Fable.Schema.Accepts.{
  Agrees, Judges, accepts, text_in, text_allowed, at_most, is_ascii, characters, fits,
}
use cloe.Fable.Schema.Agreement.{
  guard-Agrees, test-Agrees, negative_test-Agrees, validate_type-Agrees,
}

pub boolean_schema-Judges : (m required : Bool) → Judges m (boolean_schema required)
unfolding boolean_schema accepts to_string
boolean_schema-Judges m required c err fit = validate_type-Agrees m JsonType.boolean c err refl

pub ignore_schema-Judges : (m required : Bool) (t : JsonType) → Judges m (ignore_schema required t)
unfolding ignore_schema accepts
ignore_schema-Judges m required t c err fit = refl

pub at_most-above : (high : Option ℕ) (n : ℕ) → at_most high n ≡ not (above high n)
unfolding at_most above
at_most-above none n = refl
at_most-above (some h) n = refl

ascii_characters : (s : Text) → is_ascii s ≡ true → characters s ≡ length s
unfolding is_ascii characters
ascii_characters [] h = refl
ascii_characters (ch ∷ s) h = ground (arith, ascii_characters s)

validate_text-Agrees :
    (m : Bool) (s : String) (src : Text) (err : Option Reason)
    → is_empty s.pattern ≡ true
    → is_ascii src ≡ true
    → Agrees m (text_allowed s.min_length s.max_length s.enum_of src) (validate_text s src err) err
unfolding validate_text text_allowed
validate_text-Agrees m s src err plain ascii =
    rw (ascii_characters src ascii, at_most-above s.max_length (length src), plain)
      (guard-Agrees m _ (ltb (length src) s.min_length) too_short _ err (
        guard-Agrees m _ (above s.max_length (length src)) too_long _ err (
          negative_test-Agrees m (not (is_empty s.enum_of) && not (is_among src s.enum_of))
            not_enumerated err)))

pub string_schema-Judges :
    (m : Bool) (s : String)
    → s.interpolate ≡ false
    → is_empty s.pattern ≡ true
    → Judges m (string_schema s)
unfolding string_schema accepts text_in validate_string to_string fits
string_schema-Judges m s literal plain (Json.string src) err fit =
    rw literal (validate_text-Agrees m s src err plain fit)
string_schema-Judges m s literal plain c err fit = validate_type-Agrees m JsonType.string c err refl

text_allowed-enum :
    (keys : List Text) (s : Text)
    → is_empty keys ≡ false
    → text_allowed 0 none keys s ≡ is_among s keys
unfolding text_allowed at_most
text_allowed-enum keys s filled = ground arith

pub enum_schema-Judges :
    (required : Bool) (keys : List Text)
    → is_empty keys ≡ false
    → Judges true (enum_schema required keys)
unfolding enum_schema accepts text_in validate_enum
enum_schema-Judges required keys filled (Json.string s) err fit =
    rw (text_allowed-enum keys s filled) (test-Agrees true (is_among s keys) not_enumerated err)
enum_schema-Judges required keys filled c err fit = inr (refl, conf_error wrong_type, refl)

pub const_schema-Judges : (required : Bool) (t : Text) → Judges true (const_schema required t)
unfolding const_schema accepts text_in validate_const
const_schema-Judges required t (Json.string s) err fit =
    test-Agrees true (eq_text s t) not_constant err
const_schema-Judges required t c err fit = inr (refl, conf_error wrong_type, refl)
