-- ===== src/Triggers/ListQueue.antt =====
-- A priority queue that searches a list: it has what `PriorityQueue` asks for.
use cloe.Prelude.{
  ℕ, ◌+◌, ◌≤◌, ◌≡◌, refl, subst, Bool, true, false, Option, none, some, List, [], ◌∷◌, leb, leb→le,
  All, if◌then◌else◌, arith,
}
use cloe.Triggers.Types.{Trigger}
use cloe.Triggers.Timed.{weigh, PriorityQueue}

-- The earliest trigger, and the others.
abbrev pub split : Trigger → List Trigger → Trigger × List Trigger
split t [] = (t, [])
split t (u ∷ us) =
    let (m, r) = split t us in
    let (n, s) = split u us in if leb t.time u.time then (m, u ∷ r) else (n, t ∷ s)

split-weigh :
    (f : Trigger → ℕ) (t : Trigger) (ts : List Trigger)
    → f (split t ts).0 + weigh f (split t ts).1 ≡ f t + weigh f ts
split-weigh f t [] = refl
split-weigh f t (u ∷ us) = ground (arith, split-weigh f t us, split-weigh f u us)

least-of :
    (b : Bool) (t u : Trigger) (us : List Trigger)
    → leb t.time u.time ≡ b
    → All (λ v. (split t us).0.time ≤ v.time) (t ∷ us)
    → All (λ v. (split u us).0.time ≤ v.time) (u ∷ us)
    → let x : Trigger × List Trigger =
        (if b
          then ((split t us).0, u ∷ (split t us).1)
          else ((split u us).0, t ∷ (split u us).1)) in
      All (λ v. x.0.time ≤ v.time) (t ∷ u ∷ us)
least-of true t u us e h k = (h.0, (omega (arith, h.0, leb→le _ _ e), h.1))
least-of false t u us e h k = (ground (arith, k.0, e), k)

split-least : (t : Trigger) (ts : List Trigger) → All (λ u. (split t ts).0.time ≤ u.time) (t ∷ ts)
split-least t [] = (omega arith, tt)
split-least t (u ∷ us) =
    least-of (leb t.time u.time) t u us refl (split-least t us) (split-least u us)

abbrev pub top_of : List Trigger → Option Trigger
top_of [] = none
top_of (t ∷ ts) = some (split t ts).0

abbrev pub rest_of : List Trigger → List Trigger
rest_of [] = []
rest_of (t ∷ ts) = (split t ts).1

some-injective : {t u : Trigger} → some t ≡ some u → t ≡ u
some-injective e = cc

pub top_of-least :
    (q : List Trigger) (t : Trigger) → top_of q ≡ some t → All (λ u. t.time ≤ u.time) q
top_of-least [] t e = cc
top_of-least (u ∷ us) t e =
    subst (λ o. All (λ v. o.time ≤ v.time) (u ∷ us)) (some-injective e) (split-least u us)

pub top_of-rest_of :
    (f : Trigger → ℕ) (q : List Trigger) (t : Trigger)
    → top_of q ≡ some t
    → f t + weigh f (rest_of q) ≡ weigh f q
top_of-rest_of f [] t e = cc
top_of-rest_of f (u ∷ us) t e =
    subst (λ o. f o + weigh f (split u us).1 ≡ weigh f (u ∷ us)) (some-injective e)
      (split-weigh f u us)

pub top_of-none : (q : List Trigger) → top_of q ≡ none → q ≡ []
top_of-none [] e = refl
top_of-none (t ∷ ts) e = cc

abbrev pub list_queue : PriorityQueue
list_queue = record {
  Queue = List Trigger;
  contents = λ q. q;
  empty = [];
  emplace = λ t q. t ∷ q;
  top = top_of;
  pop = rest_of;
  empty_lem = refl;
  emplace_lem = λ f t q. refl;
  top-none = top_of-none;
  top-least = top_of-least;
  pop_lem = top_of-rest_of;
}
