-- ===== src/Broker/Results.antt =====
-- Chains of operations that can throw, with the state at the exception kept.
use cloe.Prelude.{Bool, true, false, Option, none, some, if◌then◌else◌}
use cloe.Broker.Types.{Error, Result, returned, thrown}

-- What goes on only where the first result has been returned.
unfoldable pub and_then {ℓ κ} :
    {A : Type ℓ} {B : Type κ} {S : Type 0} → Result A × S → (A → S → Result B × S) → Result B × S
and_then (returned a, b) f = f a b
and_then (thrown e, b) f = (thrown e, b)

-- The same for a first result that comes with no new state, for one with no state at all, and for
-- what may not be there.
unfoldable pub on_result {ℓ κ} :
    {A : Type ℓ} {B : Type κ} {S : Type 0} → Result A → S → (A → Result B × S) → Result B × S
on_result (returned a) b f = f a
on_result (thrown e) b f = (thrown e, b)

unfoldable pub and_return {ℓ κ} : {A : Type ℓ} {B : Type κ} → Result A → (A → Result B) → Result B
and_return (returned a) f = f a
and_return (thrown e) f = thrown e

unfoldable pub found {ℓ} : {A : Type ℓ} → Error → Option A → Result A
found e (some a) = returned a
found e none = thrown e

pub and_then-keeps {ℓ κ} :
    {A : Type ℓ} {B : Type κ} {S : Type 0} (P : S → Type 0)
    → (x : Result A × S) (f : A → S → Result B × S) → P x.1
    → ((a : A) (s : S) → P s → P (f a s).1)
    → P (and_then x f).1
unfolding and_then
and_then-keeps P (returned a, s) f p q = q a s p
and_then-keeps P (thrown e, s) f p q = p

pub on_result-keeps {ℓ κ} :
    {A : Type ℓ} {B : Type κ} {S : Type 0} (P : S → Type 0)
    → (x : Result A) (s : S) (f : A → Result B × S) → P s
    → ((a : A) → P (f a).1)
    → P (on_result x s f).1
unfolding on_result
on_result-keeps P (returned a) s f p q = q a
on_result-keeps P (thrown e) s f p q = p

pub if-keeps {ℓ} :
    {B : Type ℓ} {S : Type 0} (P : S → Type 0) (c : Bool) (x y : B × S)
    → P x.1
    → P y.1
    → P (if c then x else y).1
if-keeps P true x y p q = p
if-keeps P false x y p q = q
