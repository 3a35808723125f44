-- ===== src/Triggers/Timed.antt =====
-- `TimeCallback` of engine/src/simulation_events.hpp. The priority queue of the standard library is
-- a parameter: the interface `PriorityQueue` has what the callback relies on.
use cloe.Prelude.{
  ℕ, zero, suc, ◌+◌, ◌≤◌, ◌≡◌, Option, none, some, List, [], ◌∷◌, leb, if◌then◌else◌, All,
}
use cloe.Triggers.Types.{Trigger}

-- The sum of what a function gives for the triggers of a list. Two lists hold the same triggers,
-- each as often, if the sums agree for each function.
abbrev pub weigh : (Trigger → ℕ) → List Trigger → ℕ
weigh f [] = 0
weigh f (t ∷ ts) = f t + weigh f ts

-- `std::priority_queue`, with the earliest time on top. In which order triggers of the same time
-- leave it is not said.
pub record PriorityQueue : Type 1 where
  pub Queue : Type 0
  pub contents : Queue → List Trigger
  pub empty : Queue
  pub emplace : Trigger → Queue → Queue
  pub top : Queue → Option Trigger
  pub pop : Queue → Queue
  pub empty_lem : contents empty ≡ []
  pub emplace_lem :
      (f : Trigger → ℕ) (t : Trigger) (q : Queue)
      → weigh f (contents (emplace t q)) ≡ f t + weigh f (contents q)
  pub top-none : (q : Queue) → top q ≡ none → contents q ≡ []
  pub top-least :
      (q : Queue) (t : Trigger) → top q ≡ some t → All (λ u. t.time ≤ u.time) (contents q)
  pub pop_lem :
      (f : Trigger → ℕ) (q : Queue) (t : Trigger)
      → top q ≡ some t
      → f t + weigh f (contents (pop q)) ≡ weigh f (contents q)

module _ (pq : PriorityQueue) where
  -- `emplace`, with the call of the hook, which gets the time.
  unfoldable pub emplace_timed : {S : Type 0} → (ℕ → S → S) → Trigger → pq.Queue → S → pq.Queue × S
  emplace_timed hook t q s = (pq.emplace t q, hook t.time s)

  unfoldable pub emplace_all : List Trigger → pq.Queue → pq.Queue
  emplace_all [] q = q
  emplace_all (t ∷ ts) q = emplace_all ts (pq.emplace t q)

  -- The loop of `trigger`. An executed action gives the state and the triggers that it inserts into
  -- the queue, as those of Lua do. The loop is given as fuel the number of turns that it may take.
  unfoldable pub drain :
      {S : Type 0} → (Trigger → S → S × List Trigger) → ℕ → ℕ → pq.Queue → S → Option (pq.Queue × S)
  unfolding emplace_all
  drain execute now zero q s = none
  drain execute now (suc fuel) q s = elim (pq.top q) [
    | none ↦ some (q, s)
    | some t ↦
        (let rest =
            drain execute now fuel (emplace_all (execute t s).1 (pq.pop q)) (execute t s).0 in
          if leb t.time now then rest else some (q, s))
  ]
