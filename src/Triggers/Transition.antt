-- ===== src/Triggers/Transition.antt =====
-- The event of a transition between two values:
-- runtime/include/cloe/trigger/transition_event.hpp.
use cloe.Prelude.{◌≡◌, refl, ap₂, Bool, true, false, not, ◌&&◌, List, [], ◌∷◌, if◌then◌else◌, arith}

pub record Transition (T : Type 0) : Type 0 where
  pub ready : Bool
  pub from : T
  pub to : T

abbrev pub make_transition : {T : Type 0} → T → T → Transition T
make_transition from to = record { ready = false; from = from; to = to }

-- `eq` is the `==` of the values, and its negation their `!=`.
module _ {T : Type 0} (eq : T → T → Bool) where
  -- `operator()`: whether the event happens, and what it remembers.
  unfoldable pub observe : T → Transition T → Bool × Transition T
  observe x e =
      if e.ready
      then (if eq x e.to
          then (true, record e { ready = false })
          else if not (eq x e.from)
          then (false, record e { ready = false })
          else (false, e))
      else (if eq x e.from then (false, record e { ready = true }) else (false, e))

  unfoldable pub observe_all : List T → Transition T → List Bool
  unfolding observe
  observe_all [] e = []
  observe_all (x ∷ xs) e = let (b, e₁) = observe x e in b ∷ observe_all xs e₁

  -- Which values of a series are the second of the transition, given the value before the series.
  abbrev pub crossings : T → T → T → List T → List Bool
  crossings from to before [] = []
  crossings from to before (x ∷ xs) = (eq before from && eq x to) ∷ crossings from to x xs

  -- What is remembered is whether the last value was the first of the two.
  remembers :
      (from to x : T) (e : Transition T)
      → (eq x to ≡ true → x ≡ to)
      → eq to from ≡ false
      → e.from ≡ from
      → e.to ≡ to
      → (observe x e).1.ready ≡ eq x from
  unfolding observe
  remembers from to x e sound ne f t = ground (arith, sound, ne, f, t)

  from-crossings :
      (from to before : T) (xs : List T) (e : Transition T)
      → ((a b : T) → eq a b ≡ true → a ≡ b)
      → eq to from ≡ false
      → e.from ≡ from
      → e.to ≡ to
      → e.ready ≡ eq before from
      → observe_all xs e ≡ crossings from to before xs
  unfolding observe_all observe
  from-crossings from to before [] e sound ne f t r = refl
  from-crossings from to before (x ∷ xs) e sound ne f t r =
      ap₂ (λ b bs. b ∷ bs) (ground (arith, f, t, r))
        (from-crossings from to x xs (observe x e).1 sound ne (ground (arith, f))
          (ground (arith, t)) (remembers from to x e (sound x to) ne f t))

  -- For two values that differ, the event happens just where a value is the second and the one
  -- directly before it the first.
  pub observe_all-crossings :
      (from to x : T) (xs : List T)
      → ((a b : T) → eq a b ≡ true → a ≡ b)
      → eq to from ≡ false
      → observe_all (x ∷ xs) (make_transition from to) ≡ false ∷ crossings from to x xs
  unfolding observe_all observe
  observe_all-crossings from to x xs sound ne =
      let e = make_transition from to in
      ap₂ (λ b bs. b ∷ bs) (ground arith)
        (from-crossings from to x xs (observe x e).1 sound ne (ground arith) (ground arith)
          (remembers from to x e (sound x to) ne refl refl))
