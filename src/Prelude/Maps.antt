-- ===== src/Prelude/Maps.antt =====
-- `std::map` over text keys, as an association list.
use Prim.Native.String.{String}
use mathlib.Core.Path.{◌≡◌, refl}
use mathlib.Core.Option.{Option, none, some}
use mathlib.Core.List.{List, [], ◌∷◌}
use native.Mathlib.Omega.{arith}
use text.Mathlib.Text.{◌==◌}
use text.Mathlib.TextEquality.{eq_iff}
use cloe.Prelude.Tests.{if◌then◌else◌}

abbrev pub Map {ℓ} : Type ℓ → Type ℓ
Map V = List (String × V)

unfoldable pub lookup {ℓ} : {V : Type ℓ} → String → Map V → Option V
lookup name [] = none
lookup name (entry ∷ rest) = if entry.0 == name then some entry.1 else lookup name rest

-- The entry of the key is replaced, or a new one is put at the end.
unfoldable pub insert {ℓ} : {V : Type ℓ} → String → V → Map V → Map V
insert name value [] = (name, value) ∷ []
insert name value (entry ∷ rest) =
    if entry.0 == name then (name, value) ∷ rest else entry ∷ insert name value rest

pub lookup-insert {ℓ} :
    {V : Type ℓ} (written read : String) (value : V) (entries : Map V)
    → lookup read (insert written value entries)
      ≡ (if written == read then some value else lookup read entries)
unfolding lookup insert
lookup-insert written read value [] = refl
lookup-insert written read value (entry ∷ rest) = ground (
  lookup-insert written read value rest,
  eq_iff entry.0 read,
  eq_iff entry.0 written,
  eq_iff written read,
  arith,
)
