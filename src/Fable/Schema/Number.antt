-- ===== src/Fable/Schema/Number.antt =====
-- Schemas of numbers, of integer types and of doubles: fable/include/fable/schema/number.hpp and
-- number_impl.hpp. A number of a floating-point type is counted in thousandths.
use cloe.Prelude.{
  ℕ, zero, suc, ◌-◌, ◌/◌, ◌%◌, ltb, ◌==◌, ◌*◌, ◌+◌, Bool, true, false, Option, List, [], ◌∷◌, ◌||◌,
  ◌&&◌, not, if◌then◌else◌,
}
use cloe.Prelude.Int.{ℤ, pos, negsuc, ltb_int, leb_int, eq_int}
use cloe.Fable.Json.{Json, JsonType, to_string}
use cloe.Fable.Schema.Interface.{
  Reason, unsafe_cast, blacklisted, below_minimum, above_maximum, wrong_type, Verdict, returned,
  set_error, number_within, Schema,
}
use cloe.Fable.Schema.Casts.{Machine, lowest, max, cast, is_cast_safe, json_integer}

-- The type parameter.
pub data NumberType : Type 0 where
  integral : Machine → NumberType
  floating : NumberType

pub record Number : Type 0 where
  pub kind : NumberType
  pub is_required : Bool
  pub exclusive_min : Bool
  pub exclusive_max : Bool
  pub value_min : ℤ
  pub value_max : ℤ
  pub whitelist : List ℤ
  pub blacklist : List ℤ

-- The constructor; the limits of doubles are given.
unfoldable pub make : NumberType → ℤ → ℤ → Number
make (integral t) low high = record {
  kind = integral t;
  is_required = false;
  exclusive_min = false;
  exclusive_max = false;
  value_min = lowest t;
  value_max = max t;
  whitelist = [];
  blacklist = [];
}
make floating low high = record {
  kind = floating;
  is_required = false;
  exclusive_min = false;
  exclusive_max = false;
  value_min = low;
  value_max = high;
  whitelist = [];
  blacklist = [];
}

unfoldable pub set_minimum : ℤ → Number → Number
set_minimum value n = record n { value_min = value; exclusive_min = false }

unfoldable pub set_exclusive_minimum : ℤ → Number → Number
set_exclusive_minimum value n = record n { value_min = value; exclusive_min = true }

unfoldable pub set_maximum : ℤ → Number → Number
set_maximum value n = record n { value_max = value; exclusive_max = false }

unfoldable pub set_exclusive_maximum : ℤ → Number → Number
set_exclusive_maximum value n = record n { value_max = value; exclusive_max = true }

unfoldable pub set_bounds : ℤ → ℤ → Number → Number
set_bounds low high n = record n {
  exclusive_min = false;
  value_min = low;
  exclusive_max = false;
  value_max = high;
}

-- `count`, of a set.
unfoldable pub contains : List ℤ → ℤ → Bool
contains [] x = false
contains (y ∷ ys) x = eq_int y x || contains ys x

-- `insert`, into a set.
unfoldable pub put : ℤ → List ℤ → List ℤ
unfolding contains
put x xs = if contains xs x then xs else x ∷ xs

unfoldable pub is_floating : NumberType → Bool
is_floating (integral t) = false
is_floating floating = true

-- The number that is left, and whether a `logic_error` is thrown.
unfoldable pub insert_whitelist : ℤ → Number → Number × Bool
unfolding is_floating contains put
insert_whitelist x n =
    if is_floating n.kind
    then (n, true)
    else if contains n.blacklist x
    then (n, true)
    else (record n { whitelist = put x n.whitelist }, false)

unfoldable pub insert_blacklist : ℤ → Number → Number × Bool
unfolding is_floating contains put
insert_blacklist x n =
    if is_floating n.kind
    then (n, true)
    else if contains n.blacklist x
    then (n, true)
    else (record n { blacklist = put x n.blacklist }, false)

-- A loop over the values of a list, up to the first that throws.
unfoldable pub extend : (ℤ → Number → Number × Bool) → List ℤ → Number → Number × Bool
extend insert_one [] n = (n, false)
extend insert_one (x ∷ xs) n =
    let (n', throws) = insert_one x n in
    let rest = extend insert_one xs n' in if throws then (n', true) else rest

unfoldable pub reset_whitelist : List ℤ → Number → Number × Bool
unfolding extend insert_whitelist
reset_whitelist xs n = extend insert_whitelist xs (record n { whitelist = [] })

unfoldable pub reset_blacklist : List ℤ → Number → Number × Bool
unfolding extend insert_blacklist
reset_blacklist xs n = extend insert_blacklist xs (record n { blacklist = [] })

unfoldable pub bounds_with : ℤ → ℤ → List ℤ → Number → Number × Bool
unfolding extend insert_whitelist set_bounds
bounds_with low high whitelisted n = extend insert_whitelist whitelisted (set_bounds low high n)

-- To a multiple of the step, and to an even one from the middle of two.
unfoldable pub half_even : ℕ → ℕ → ℕ
half_even zero n = n
half_even (suc k) n =
    let q = n / suc k in
    let r = n % suc k in
    if ltb (r * 2) (suc k)
    then q * suc k
    else if ltb (suc k) (r * 2)
    then (q + 1) * suc k
    else if q % 2 == 0
    then q * suc k
    else (q + 1) * suc k

-- To 53 bits, below the limit with the step; of 64 bits, 12 turns are enough.
unfoldable pub round_below : ℕ → ℕ → ℕ → ℕ → ℕ
unfolding half_even
round_below zero limit step n = n
round_below (suc turns) limit step n =
    let further = round_below turns (limit * 2) (step * 2) n in
    if ltb n limit then half_even step n else further

unfoldable pub round_double : ℕ → ℕ
unfolding round_below
round_double n = round_below 12 9007199254740992 1 n

-- `static_cast<T>` of an integer, to a machine integer or to a double.
unfoldable pub convert : NumberType → ℤ → ℤ
unfolding cast round_double
convert (integral t) v = cast t v
convert floating (pos n) = pos (round_double n * 1000)
convert floating (negsuc n) = negsuc (round_double (n + 1) * 1000 - 1)

-- From the whitelist on.
unfoldable pub within : Number → ℤ → Option Reason → Verdict
unfolding contains is_floating set_error
within n value err =
    if not (is_floating n.kind) && contains n.whitelist value
    then returned true err
    else if not (is_floating n.kind) && contains n.blacklist value
    then set_error blacklisted err
    else if (if n.exclusive_min then leb_int value n.value_min else ltb_int value n.value_min)
    then set_error below_minimum err
    else if (if n.exclusive_max then leb_int n.value_max value else ltb_int n.value_max value)
    then set_error above_maximum err
    else returned true err

-- Of an integer of JSON, unsigned or signed.
unfoldable pub validate_bounds : NumberType → Number → Bool → ℤ → Option Reason → Verdict
unfolding convert within is_cast_safe set_error
validate_bounds (integral t) n signed original err =
    if is_cast_safe t (json_integer signed) original
    then within n (cast t original) err
    else set_error unsafe_cast err
validate_bounds floating n signed original err = within n (convert floating original) err

unfoldable pub validate_as : NumberType → Number → Json → Option Reason → Verdict
unfolding validate_bounds within set_error
validate_as t n (Json.number_unsigned v) err = validate_bounds t n false (pos v) err
validate_as t n (Json.number_integer v) err = validate_bounds t n true v err
validate_as (integral t) n (Json.number_float v) err = set_error wrong_type err
validate_as floating n (Json.number_float v) err = within n v err
validate_as t n c err = set_error wrong_type err

unfoldable pub validate_number : Number → Json → Option Reason → Verdict
unfolding validate_as
validate_number n c err = validate_as n.kind n c err

unfoldable pub number_type : NumberType → JsonType
number_type (integral t) = if t.is_signed then JsonType.number_integer else JsonType.number_unsigned
number_type floating = JsonType.number_float

unfoldable pub number_schema : Number → Schema
unfolding validate_number number_type to_string
number_schema n = record {
  type = number_type n.kind;
  is_variant = false;
  is_required = n.is_required;
  json_schema =
      number_within (to_string (number_type n.kind)) n.exclusive_min n.value_min n.exclusive_max
        n.value_max;
  validate = validate_number n;
}
