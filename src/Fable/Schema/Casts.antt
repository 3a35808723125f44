-- ===== src/Fable/Schema/Casts.antt =====
-- Casts between machine integers: is_cast_safe of fable/include/fable/utility/templates.hpp.
use cloe.Prelude.{ℕ, ◌-◌, ◌%◌, Bool, true, false, not, ◌&&◌, ltb, if◌then◌else◌}
use cloe.Prelude.Int.{ℤ, pos, negsuc, is_negative, leb_int, eq_int}

pub data Width : Type 0 where
  w8 w16 w32 w64 : Width

-- An integer type of the machine.
pub record Machine : Type 0 where
  pub is_signed : Bool
  pub width : Width

-- Two to the width.
abbrev pub modulus : Width → ℕ
modulus w8 = 256
modulus w16 = 65536
modulus w32 = 4294967296
modulus w64 = 18446744073709551616

abbrev pub half : Width → ℕ
half w8 = 128
half w16 = 32768
half w32 = 2147483648
half w64 = 9223372036854775808

-- `numeric_limits`.
abbrev pub lowest : Machine → ℤ
lowest t = if t.is_signed then negsuc (half t.width - 1) else pos 0

abbrev pub max : Machine → ℤ
max t = if t.is_signed then pos (half t.width - 1) else pos (modulus t.width - 1)

-- The value modulo two to the width.
unfoldable pub wrap : Width → ℤ → ℕ
wrap w (pos n) = n % modulus w
wrap w (negsuc n) = modulus w - 1 - n % modulus w

-- `static_cast`.
unfoldable pub cast : Machine → ℤ → ℤ
unfolding wrap
cast t v =
    let u = wrap t.width v in
    if t.is_signed
    then (if ltb u (half t.width) then pos u else negsuc (modulus t.width - 1 - u))
    else pos u

abbrev pub same_sign : Bool → Bool → Bool
same_sign true b = b
same_sign false b = not b

unfoldable pub is_cast_safe : Machine → Machine → ℤ → Bool
unfolding cast
is_cast_safe t s v =
    if not (eq_int (cast s (cast t v)) v)
    then false
    else if same_sign t.is_signed s.is_signed
    then true
    else if s.is_signed
    then not (is_negative v)
    else leb_int v (max t)

abbrev pub in_range : Machine → ℤ → Bool
in_range t v = leb_int (lowest t) v && leb_int v (max t)

-- The types of the integers of JSON.
abbrev pub uint64 : Machine
uint64 = record { is_signed = false; width = w64 }

abbrev pub int64 : Machine
int64 = record { is_signed = true; width = w64 }

abbrev pub json_integer : Bool → Machine
json_integer true = int64
json_integer false = uint64
