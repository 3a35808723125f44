-- ===== src/Fable/Schema/JudgedNumber.antt =====
-- A schema of numbers validates just what its document accepts: the limits of the schema lie within
-- those of its type, and the casts to it are safe.
use cloe.Prelude.{
  ◌≡◌, inl, inr, refl, Bool, true, false, Option, none, [], ◌&&◌, not, if◌then◌else◌, Bool-cases,
  arith,
}
use cloe.Prelude.Int.{ℤ, pos, negsuc, leb_int, ltb_int}
use cloe.Fable.Json.{Json, TypeName, to_string}
use cloe.Fable.Schema.Interface.{
  Reason, wrong_type, unsafe_cast, below_minimum, above_maximum, set_error,
}
use cloe.Fable.Schema.Casts.{Machine, in_range, lowest, max, json_integer}
use cloe.Fable.Schema.CastSafe.{is_cast_safe-in_range, cast_lem}
use cloe.Fable.Schema.Number.{
  Number, NumberType, integral, floating, within, validate_bounds, validate_as, validate_number,
  number_schema, number_type, contains, is_floating,
}
use cloe.Fable.Schema.Accepts.{Agrees, Judges, accepts, number_in, number_value, between, fits}
use cloe.Fable.Schema.Agreement.{guard-Agrees, negative_test-Agrees}

-- Nothing is listed apart.
abbrev pub Unlisted : Number → Type 0
Unlisted n = (n.whitelist ≡ []) × (n.blacklist ≡ [])

and_false : (b : Bool) → (b && false) ≡ false
and_false true = refl
and_false false = refl

within-Agrees :
    (m : Bool) (n : Number) (v : ℤ) (err : Option Reason)
    → Unlisted n
    → Agrees m
        (between n.exclusive_min n.value_min n.exclusive_max n.value_max v)
        (within n v err)
        err
unfolding within between contains
within-Agrees m n v err (white, black) =
    rw (white, black, and_false (not (is_floating n.kind)))
      (guard-Agrees m _ (if n.exclusive_min then leb_int v n.value_min else ltb_int v n.value_min)
        below_minimum _ err
        (negative_test-Agrees m
          (if n.exclusive_max then leb_int n.value_max v else ltb_int n.value_max v) above_maximum
          err))

-- A value out of the range of the type is out of limits that lie in it.
below_range :
    (exclusive : Bool) (least low v : ℤ)
    → leb_int least low ≡ true
    → leb_int least v ≡ false
    → not (if exclusive then leb_int v low else ltb_int v low) ≡ false
below_range true (pos a) (pos b) (pos c) h k = ground arith
below_range e least low v h k = ground arith

above_range :
    (exclusive : Bool) (high most v : ℤ)
    → leb_int high most ≡ true
    → leb_int v most ≡ false
    → not (if exclusive then leb_int high v else ltb_int high v) ≡ false
above_range true (pos a) (pos b) (pos c) h k = ground arith
above_range e high most v h k = ground arith

-- The type is one of integers, and the limits lie in it. Doubles are left out: an integer is
-- rounded before it is compared.
unfoldable pub is_bounded : NumberType → Number → Bool
is_bounded (integral t) n = leb_int (lowest t) n.value_min && leb_int n.value_max (max t)
is_bounded floating n = false

out_of_limits :
    (t : Machine) (n : Number) (v : ℤ)
    → is_bounded (integral t) n ≡ true
    → in_range t v ≡ false
    → between n.exclusive_min n.value_min n.exclusive_max n.value_max v ≡ false
unfolding between is_bounded
out_of_limits t n v bounded out = ground (
  arith,
  below_range n.exclusive_min (lowest t) n.value_min v,
  above_range n.exclusive_max n.value_max (max t) v,
)

-- An integer of JSON, for a schema of an integer type.
integral-Agrees :
    (m : Bool) (n : Number) (t : Machine) (signed : Bool) (v : ℤ) (err : Option Reason)
    → Unlisted n
    → is_bounded (integral t) n ≡ true
    → in_range (json_integer signed) v ≡ true
    → Agrees m
        (between n.exclusive_min n.value_min n.exclusive_max n.value_max v)
        (validate_bounds (integral t) n signed v err)
        err
unfolding validate_bounds set_error
integral-Agrees m n t signed v err unlisted bounded fit =
    let safe = is_cast_safe-in_range t signed v fit in
    elim (Bool-cases (in_range t v)) [
      | inl inside ↦ rw (safe, inside, cast_lem t v inside) (within-Agrees m n v err unlisted)
      | inr outside ↦
          rw (safe, outside, out_of_limits t n v bounded outside) (inl (unsafe_cast, refl))
    ]

pub integer_name : (t : Machine) → to_string (number_type (integral t)) ≡ TypeName.integer
unfolding to_string number_type
integer_name t = elim (Bool-cases t.is_signed) [ inl e ↦ rw e | inr e ↦ rw e ]

-- A floating-point number with a fractional part is no integer.
pub no_integer :
    (f : ℤ)
    → fits (Json.number_float f) ≡ true
    → number_value TypeName.integer (Json.number_float f) ≡ none
unfolding fits number_value
no_integer (pos n) fit = ground (arith, fit)
no_integer (negsuc n) fit = ground (arith, fit)

validate_as-Agrees :
    (m : Bool) (t : NumberType) (n : Number) (c : Json) (err : Option Reason)
    → Unlisted n
    → is_bounded t n ≡ true
    → fits c ≡ true
    → Agrees m
        (number_in
          (between n.exclusive_min n.value_min n.exclusive_max n.value_max)
          (number_value (to_string (number_type t)) c))
        (validate_as t n c err)
        err
unfolding validate_as number_in to_string number_type fits set_error number_value is_bounded
validate_as-Agrees m (integral t) n (Json.number_unsigned v) err unlisted bounded fit =
    rw (integer_name t) (integral-Agrees m n t false (pos v) err unlisted bounded fit)
validate_as-Agrees m (integral t) n (Json.number_integer v) err unlisted bounded fit =
    rw (integer_name t) (integral-Agrees m n t true v err unlisted bounded fit)
validate_as-Agrees m (integral t) n (Json.number_float f) err unlisted bounded fit =
    rw (integer_name t, no_integer f fit) (inl (wrong_type, refl))
validate_as-Agrees m (integral t) n c err unlisted bounded fit =
    rw (integer_name t) (inl (wrong_type, refl))
validate_as-Agrees m floating n c err unlisted bounded fit = absurd (ground (arith, bounded))

pub number_schema-Judges :
    (m : Bool) (n : Number) → Unlisted n → is_bounded n.kind n ≡ true → Judges m (number_schema n)
unfolding number_schema accepts validate_number
number_schema-Judges m n unlisted bounded c err fit =
    validate_as-Agrees m n.kind n c err unlisted bounded fit
