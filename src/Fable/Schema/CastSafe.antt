-- ===== src/Fable/Schema/CastSafe.antt =====
-- The cast of an integer of JSON is safe just where the value is in the range of the target type.
use cloe.Prelude.{ℕ, ◌≡◌, Bool, true, false, arith}
use cloe.Prelude.Int.{ℤ, pos, negsuc}
use cloe.Fable.Schema.Casts.{
  Machine, Width, w8, w16, w32, w64, cast, is_cast_safe, in_range, uint64, int64, json_integer,
}

from_unsigned :
    (signed : Bool) (w : Width) (n : ℕ)
    → in_range uint64 (pos n) ≡ true
    → is_cast_safe (record { is_signed = signed; width = w }) uint64 (pos n)
      ≡ in_range (record { is_signed = signed; width = w }) (pos n)
unfolding is_cast_safe
from_unsigned true w8 n h = ground arith
from_unsigned true w16 n h = ground arith
from_unsigned true w32 n h = ground arith
from_unsigned true w64 n h = ground arith
from_unsigned false w8 n h = ground arith
from_unsigned false w16 n h = ground arith
from_unsigned false w32 n h = ground arith
from_unsigned false w64 n h = ground arith

from_signed :
    (signed : Bool) (w : Width) (v : ℤ)
    → in_range int64 v ≡ true
    → is_cast_safe (record { is_signed = signed; width = w }) int64 v
      ≡ in_range (record { is_signed = signed; width = w }) v
unfolding is_cast_safe
from_signed true w8 (pos n) h = ground arith
from_signed true w16 (pos n) h = ground arith
from_signed true w32 (pos n) h = ground arith
from_signed true w64 (pos n) h = ground arith
from_signed false w8 (pos n) h = ground arith
from_signed false w16 (pos n) h = ground arith
from_signed false w32 (pos n) h = ground arith
from_signed false w64 (pos n) h = ground arith
from_signed true w8 (negsuc n) h = ground arith
from_signed true w16 (negsuc n) h = ground arith
from_signed true w32 (negsuc n) h = ground arith
from_signed true w64 (negsuc n) h = ground arith
from_signed false w8 (negsuc n) h = ground arith
from_signed false w16 (negsuc n) h = ground arith
from_signed false w32 (negsuc n) h = ground arith
from_signed false w64 (negsuc n) h = ground arith

-- For each integer type `t` of 8 to 64 bits, and each value of an unsigned or a signed integer of
-- 64 bits: the cast to `t` counts as safe if and only if the value is between the limits of `t`.
pub is_cast_safe-in_range :
    (t : Machine) (signed : Bool) (v : ℤ)
    → in_range (json_integer signed) v ≡ true
    → is_cast_safe t (json_integer signed) v ≡ in_range t v
is_cast_safe-in_range t true v h = from_signed t.is_signed t.width v h
is_cast_safe-in_range t false (pos n) h = from_unsigned t.is_signed t.width n h
is_cast_safe-in_range t false (negsuc n) h = absurd (ground arith)

by_type :
    (signed : Bool) (w : Width) (v : ℤ)
    → in_range (record { is_signed = signed; width = w }) v ≡ true
    → cast (record { is_signed = signed; width = w }) v ≡ v
unfolding cast
by_type true w8 (pos n) h = ground arith
by_type true w8 (negsuc n) h = ground arith
by_type true w16 (pos n) h = ground arith
by_type true w16 (negsuc n) h = ground arith
by_type true w32 (pos n) h = ground arith
by_type true w32 (negsuc n) h = ground arith
by_type true w64 (pos n) h = ground arith
by_type true w64 (negsuc n) h = ground arith
by_type false w8 (pos n) h = ground arith
by_type false w8 (negsuc n) h = ground arith
by_type false w16 (pos n) h = ground arith
by_type false w16 (negsuc n) h = ground arith
by_type false w32 (pos n) h = ground arith
by_type false w32 (negsuc n) h = ground arith
by_type false w64 (pos n) h = ground arith
by_type false w64 (negsuc n) h = ground arith

-- A value in the range of a type is left by the cast to it.
pub cast_lem : (t : Machine) (v : ℤ) → in_range t v ≡ true → cast t v ≡ v
cast_lem t v h = by_type t.is_signed t.width v h
