-- ===== src/Fable/Schema/Interface.antt =====
-- The interface of schemas: fable/include/fable/schema/interface.hpp. The texts of the errors, and
-- the descriptions, are left out.
use cloe.Prelude.{
  ℕ, Bool, true, false, Option, none, some, List, [], ◌∷◌, is_some, not, if◌then◌else◌,
}
use cloe.Prelude.Int.{ℤ}
use cloe.Prelude.Texts.{Text}
use cloe.Fable.Json.{Json, JsonType, TypeName, type_of, same}

-- What an error says is wrong.
pub data Reason : Type 0 where
  wrong_type unsafe_cast blacklisted below_minimum above_maximum : Reason
  not_interpolated too_short too_long no_pattern not_enumerated : Reason
  not_constant too_few too_many bad_index bad_name no_regex : Reason
  no_variant many_variants unknown_factory defined_already : Reason
  missing_property unexpected_property : Text → Reason

-- The classes of exceptions.
pub data Exception : Type 0 where
  conf_error schema_error : Reason → Exception
  logic_error : Exception

-- What a call of `validate` does: it returns and leaves the error that it is passed, or throws.
pub data Verdict : Type 0 where
  returned : Bool → Option Reason → Verdict
  thrown : Exception → Verdict

-- `if (!...) return false;` and what comes next.
unfoldable pub and_then : Verdict → (Option Reason → Verdict) → Verdict
and_then (returned true err) next = next err
and_then (returned false err) next = returned false err
and_then (thrown e) next = thrown e

-- A schema in JSON, by its keywords. A limit that is not written is none.
mutual
  pub data Document : Type 0 where
    anything nothing : Document
    of_type : TypeName → Document
    number_within : TypeName → Bool → ℤ → Bool → ℤ → Document
    text_within : ℕ → Option ℕ → List Text → Document
    constant : Text → Document
    array_of : Document → ℕ → Option ℕ → Document
    numbered : Document → Document
    object_of : Properties → List Text → Document → ℕ → Option ℕ → Document
    one_of : Documents → Document
    any_of : Documents → Document

  pub data Documents : Type 0 where
    no_documents : Documents
    document : Document → Documents → Documents

  pub data Properties : Type 0 where
    no_properties : Properties
    property : Text → Document → Properties → Properties

pub record Schema : Type 0 where
  pub type : JsonType
  pub is_variant : Bool
  pub is_required : Bool
  pub json_schema : Document
  pub validate : Json → Option Reason → Verdict

unfoldable pub set_error : Reason → Option Reason → Verdict
set_error r err = returned false (some r)

unfoldable pub validate_type : JsonType → Json → Option Reason → Verdict
unfolding same type_of set_error
validate_type type c err =
    if not (same (type_of c) type)
    then (if same (type_of c) JsonType.number_unsigned
        then (if same type JsonType.number_integer
            then returned true err
            else set_error wrong_type err)
        else set_error wrong_type err)
    else returned true err

-- `fail`: the error that `validate` has left, whatever it has returned.
pub data Failure : Type 0 where
  found : Option Reason → Failure
  failed : Exception → Failure

unfoldable pub fail : Schema → Json → Failure
fail s c = elim (s.validate c none) [ (returned b err) ↦ found err | (thrown e) ↦ failed e ]

unfoldable pub no_error : Failure → Bool
no_error (found err) = not (is_some err)
no_error (failed e) = false

-- Where `fail` returns.
unfoldable pub is_valid : Schema → Json → Bool
unfolding fail no_error
is_valid s c = no_error (fail s c)

unfoldable pub validate_or_throw : Schema → Json → Option Exception
unfolding fail
validate_or_throw s c = elim (fail s c) [
  | (found none) ↦ none
  | (found (some r)) ↦ some (schema_error r)
  | (failed e) ↦ some e
]

-- A loop that validates values one after the other.
unfoldable pub each : (Json → Option Reason → Verdict) → List Json → Option Reason → Verdict
unfolding and_then
each validate [] err = returned true err
each validate (x ∷ xs) err = and_then (validate x err) (each validate xs)
