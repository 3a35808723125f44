-- ===== src/Prelude/Texts.antt =====
-- Texts as lists of code units, and maps over them.
use Prim.Native.Nat.{ℕ}
use mathlib.Core.Path.{◌≡◌, refl}
use mathlib.Core.Bool.{Bool, true, false}
use mathlib.Core.Option.{Option, none, some}
use mathlib.Core.List.{List, [], ◌∷◌}
use native.Mathlib.Omega.{arith}
use cloe.Prelude.Tests.{◌==◌, if◌then◌else◌}

abbrev pub Text : Type 0
Text = List ℕ

unfoldable pub eq_text : Text → Text → Bool
eq_text [] [] = true
eq_text [] (d ∷ ds) = false
eq_text (c ∷ cs) [] = false
eq_text (c ∷ cs) (d ∷ ds) = let rest = eq_text cs ds in if c == d then rest else false

pub eq_text-eq : (a b : Text) → eq_text a b ≡ true → a ≡ b
unfolding eq_text
eq_text-eq [] [] e = refl
eq_text-eq [] (d ∷ ds) e = cc
eq_text-eq (c ∷ cs) [] e = cc
eq_text-eq (c ∷ cs) (d ∷ ds) e = ground (arith, eq_text-eq cs ds)

pub eq_text_refl : (a : Text) → eq_text a a ≡ true
unfolding eq_text
eq_text_refl [] = refl
eq_text_refl (c ∷ cs) = ground (arith, eq_text_refl cs)

-- `std::map` over such texts.
unfoldable pub find_text {ℓ} : {V : Type ℓ} → Text → List (Text × V) → Option V
find_text key [] = none
find_text key (entry ∷ rest) = if eq_text entry.0 key then some entry.1 else find_text key rest

unfoldable pub put_text {ℓ} : {V : Type ℓ} → Text → V → List (Text × V) → List (Text × V)
put_text key value [] = (key, value) ∷ []
put_text key value (entry ∷ rest) =
    if eq_text entry.0 key then (key, value) ∷ rest else entry ∷ put_text key value rest
