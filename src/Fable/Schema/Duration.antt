-- ===== src/Fable/Schema/Duration.antt =====
-- Schemas of durations: fable/include/fable/schema/duration.hpp, over the number of its ticks. They
-- are those of numbers, but for the lists.
use cloe.Prelude.{◌≡◌, refl, ap, Bool, true, false, Option, [], if◌then◌else◌, Bool-cases, inl, inr}
use cloe.Prelude.Int.{ℤ, pos, ltb_int, leb_int}
use cloe.Fable.Json.{Json, to_string}
use cloe.Fable.Schema.Interface.{
  Reason, unsafe_cast, below_minimum, above_maximum, wrong_type, Verdict, returned, set_error,
  number_within, Schema,
}
use cloe.Fable.Schema.Casts.{cast, is_cast_safe, json_integer}
use cloe.Fable.Schema.Number.{
  NumberType, integral, floating, Number, convert, number_type, within, contains, is_floating,
  validate_bounds, validate_as, validate_number, number_schema,
}
use cloe.Fable.Schema.Accepts.{Judges}
use cloe.Fable.Schema.JudgedNumber.{is_bounded, number_schema-Judges}

pub record Duration : Type 0 where
  pub kind : NumberType
  pub is_required : Bool
  pub exclusive_min : Bool
  pub exclusive_max : Bool
  pub value_min : ℤ
  pub value_max : ℤ

unfoldable pub set_minimum : ℤ → Duration → Duration
set_minimum value d = record d { value_min = value; exclusive_min = false }

unfoldable pub set_exclusive_minimum : ℤ → Duration → Duration
set_exclusive_minimum value d = record d { value_min = value; exclusive_min = true }

unfoldable pub set_maximum : ℤ → Duration → Duration
set_maximum value d = record d { value_max = value; exclusive_max = false }

unfoldable pub set_exclusive_maximum : ℤ → Duration → Duration
set_exclusive_maximum value d = record d { value_max = value; exclusive_max = true }

unfoldable pub set_bounds : ℤ → ℤ → Duration → Duration
set_bounds low high d = record d {
  exclusive_min = false;
  value_min = low;
  exclusive_max = false;
  value_max = high;
}

unfoldable pub ticks_within : Duration → ℤ → Option Reason → Verdict
unfolding set_error
ticks_within d value err =
    if (if d.exclusive_min then leb_int value d.value_min else ltb_int value d.value_min)
    then set_error below_minimum err
    else if (if d.exclusive_max then leb_int d.value_max value else ltb_int d.value_max value)
    then set_error above_maximum err
    else returned true err

unfoldable pub validate_ticks : NumberType → Duration → Bool → ℤ → Option Reason → Verdict
unfolding convert ticks_within is_cast_safe set_error
validate_ticks (integral t) d signed original err =
    if is_cast_safe t (json_integer signed) original
    then ticks_within d (cast t original) err
    else set_error unsafe_cast err
validate_ticks floating d signed original err = ticks_within d (convert floating original) err

unfoldable pub validate_duration_as : NumberType → Duration → Json → Option Reason → Verdict
unfolding validate_ticks ticks_within set_error
validate_duration_as t d (Json.number_unsigned v) err = validate_ticks t d false (pos v) err
validate_duration_as t d (Json.number_integer v) err = validate_ticks t d true v err
validate_duration_as (integral t) d (Json.number_float v) err = set_error wrong_type err
validate_duration_as floating d (Json.number_float v) err = ticks_within d v err
validate_duration_as t d c err = set_error wrong_type err

unfoldable pub duration_schema : Duration → Schema
unfolding validate_duration_as number_type to_string
duration_schema d = record {
  type = number_type d.kind;
  is_variant = false;
  is_required = d.is_required;
  json_schema =
      number_within (to_string (number_type d.kind)) d.exclusive_min d.value_min d.exclusive_max
        d.value_max;
  validate = validate_duration_as d.kind d;
}

-- The number without lists that has the same limits.
abbrev pub number_of : Duration → Number
number_of d = record {
  kind = d.kind;
  is_required = d.is_required;
  exclusive_min = d.exclusive_min;
  exclusive_max = d.exclusive_max;
  value_min = d.value_min;
  value_max = d.value_max;
  whitelist = [];
  blacklist = [];
}

ticks_within-number :
    (d : Duration) (v : ℤ) (err : Option Reason) → ticks_within d v err ≡ within (number_of d) v err
unfolding ticks_within within contains
ticks_within-number d v err = elim (Bool-cases (is_floating d.kind)) [
  | inl e ↦ rw e refl
  | inr e ↦ rw e refl
]

validate_ticks-number :
    (t : NumberType) (d : Duration) (signed : Bool) (v : ℤ) (err : Option Reason)
    → validate_ticks t d signed v err ≡ validate_bounds t (number_of d) signed v err
unfolding validate_ticks validate_bounds
validate_ticks-number (integral t) d signed v err =
    ap
      (λ verdict.
        if is_cast_safe t (json_integer signed) v then verdict else set_error unsafe_cast err)
      (ticks_within-number d (cast t v) err)
validate_ticks-number floating d signed v err = ticks_within-number d (convert floating v) err

validate_duration_as-number :
    (t : NumberType) (d : Duration) (c : Json) (err : Option Reason)
    → validate_duration_as t d c err ≡ validate_as t (number_of d) c err
unfolding validate_duration_as validate_as
validate_duration_as-number t d (Json.number_unsigned v) err =
    validate_ticks-number t d false (pos v) err
validate_duration_as-number t d (Json.number_integer v) err = validate_ticks-number t d true v err
validate_duration_as-number (integral t) d (Json.number_float v) err = refl
validate_duration_as-number floating d (Json.number_float v) err = ticks_within-number d v err
validate_duration_as-number t d c err = refl

pub duration_schema-Judges :
    (m : Bool) (d : Duration)
    → is_bounded d.kind (number_of d) ≡ true
    → Judges m (duration_schema d)
unfolding duration_schema number_schema validate_number
duration_schema-Judges m d bounded c err fit =
    rw (validate_duration_as-number d.kind d c err)
      (number_schema-Judges m (number_of d) (refl, refl) bounded c err fit)
