-- ===== src/Triggers/Draining.antt =====
-- What the loop of `TimeCallback` in engine/src/simulation_events.hpp runs and leaves.
use cloe.Prelude.{
  ℕ, zero, suc, ◌+◌, ◌≤◌, ◌<◌, ◌≡◌, refl, ap, sym, ◌∙◌, true, false, none, some, List, [], ◌∷◌,
  ◌++◌, leb, if◌then◌else◌, All, Bool-cases, Option-cases, inl, inr, arith, length, subst, leb→le,
}
use cloe.Triggers.Types.{Trigger}
use cloe.Triggers.Timed.{weigh, PriorityQueue, emplace_all, drain}

-- The times do not fall.
abbrev pub Ascends : ℕ → List Trigger → Type 0
Ascends a [] = Unit
Ascends a (t ∷ ts) = (a ≤ t.time) × Ascends t.time ts

abbrev pub run_all : {S : Type 0} → (Trigger → S → S × List Trigger) → List Trigger → S → S
run_all execute [] s = s
run_all execute (t ∷ ts) s = run_all execute ts (execute t s).0

-- All that they insert.
abbrev pub inserted_by :
    {S : Type 0} → (Trigger → S → S × List Trigger) → List Trigger → S → List Trigger
inserted_by execute [] s = []
inserted_by execute (t ∷ ts) s = (execute t s).1 ++ inserted_by execute ts (execute t s).0

weigh-append :
    (f : Trigger → ℕ) (ts us : List Trigger) → weigh f (ts ++ us) ≡ weigh f ts + weigh f us
weigh-append f [] us = omega arith
weigh-append f (t ∷ ts) us = omega (arith, weigh-append f ts us)

emplace_all-weigh :
    (pq : PriorityQueue) (f : Trigger → ℕ) (ts : List Trigger) (q : pq.Queue)
    → weigh f (pq.contents (emplace_all pq ts q)) ≡ weigh f ts + weigh f (pq.contents q)
unfolding emplace_all
emplace_all-weigh pq f [] q = omega arith
emplace_all-weigh pq f (t ∷ ts) q =
    omega (arith, emplace_all-weigh pq f ts (pq.emplace t q), pq.emplace_lem f t q)

module _ (pq : PriorityQueue) {S : Type 0} (execute : Trigger → S → S × List Trigger)
    (now : ℕ) where
  -- What draining does to a queue whose triggers are not before `first`: it runs these triggers,
  -- and leaves this queue.
  pub record Drained (first : ℕ) (q : pq.Queue) (s : S) (q' : pq.Queue) (s' : S)
      (ran : List Trigger) : Type 0 where
    pub runs : s' ≡ run_all execute ran s
    pub due : All (λ t. t.time ≤ now) ran
    pub waits : All (λ t. now < t.time) (pq.contents q')
    pub same :
        (f : Trigger → ℕ)
        → weigh f ran + weigh f (pq.contents q')
          ≡ weigh f (pq.contents q) + weigh f (inserted_by execute ran s)
    pub in_order : Ascends first ran

  due_weight : Trigger → ℕ
  due_weight t = if leb t.time now then 1 else 0

  late-due_weight : (ts : List Trigger) → All (λ t. now < t.time) ts → weigh due_weight ts ≡ 0
  unfolding due_weight
  late-due_weight [] h = refl
  late-due_weight (t ∷ ts) h = ground (arith, h.0, late-due_weight ts h.1)

  due_weight-length : (ts : List Trigger) → weigh due_weight ts ≤ length ts
  unfolding due_weight
  due_weight-length [] = omega arith
  due_weight-length (t ∷ ts) = ground (arith, due_weight-length ts)

  weigh-All :
      (a : ℕ) (ts : List Trigger)
      → weigh (λ t. if leb a t.time then 0 else 1) ts ≡ 0
      → All (λ t. a ≤ t.time) ts
  weigh-All a [] e = tt
  weigh-All a (t ∷ ts) e = (ground arith, weigh-All a ts (ground arith))

  All-weigh :
      (a : ℕ) (ts : List Trigger)
      → All (λ t. a ≤ t.time) ts
      → weigh (λ t. if leb a t.time then 0 else 1) ts ≡ 0
  All-weigh a [] h = refl
  All-weigh a (t ∷ ts) h = ground (arith, h.0, All-weigh a ts h.1)

  All-later :
      (a b : ℕ) (ts : List Trigger) → a < b → All (λ t. b ≤ t.time) ts → All (λ t. a < t.time) ts
  All-later a b [] l h = tt
  All-later a b (t ∷ ts) l h = (omega (arith, h.0), All-later a b ts l h.1)

  drain-none :
      (fuel : ℕ) (q : pq.Queue) (s : S)
      → pq.top q ≡ none
      → drain pq execute now (suc fuel) q s ≡ some (q, s)
  unfolding drain
  drain-none fuel q s e = rw (e, drain)

  drain-due :
      (fuel : ℕ) (q : pq.Queue) (s : S) (t : Trigger)
      → pq.top q ≡ some t
      → leb t.time now ≡ true
      → drain pq execute now (suc fuel) q s
        ≡ drain pq execute now fuel (emplace_all pq (execute t s).1 (pq.pop q)) (execute t s).0
  unfolding drain
  drain-due fuel q s t e d =
      rw (drain, e)
        (ap
          (λ b.
            if b
            then drain pq execute now fuel (emplace_all pq (execute t s).1 (pq.pop q))
                (execute t s).0
            else some (q, s))
          d)

  drain-waits :
      (fuel : ℕ) (q : pq.Queue) (s : S) (t : Trigger)
      → pq.top q ≡ some t
      → leb t.time now ≡ false
      → drain pq execute now (suc fuel) q s ≡ some (q, s)
  unfolding drain
  drain-waits fuel q s t e d =
      rw (drain, e)
        (ap
          (λ b.
            if b
            then drain pq execute now fuel (emplace_all pq (execute t s).1 (pq.pop q))
                (execute t s).0
            else some (q, s))
          d)

  later : (a b : ℕ) → leb b a ≡ false → a < b
  later a b h = ground arith

  top-All :
      (a : ℕ) (q : pq.Queue) (t : Trigger)
      → pq.top q ≡ some t
      → All (λ u. a ≤ u.time) (pq.contents q)
      → a ≤ t.time
  top-All a q t e h =
      ground (
        arith,
        All-weigh a (pq.contents q) h,
        pq.pop_lem (λ u. if leb a u.time then 0 else 1) q t e,
      )

  pop-All :
      (a : ℕ) (q : pq.Queue) (t : Trigger)
      → pq.top q ≡ some t
      → All (λ u. a ≤ u.time) (pq.contents q)
      → All (λ u. a ≤ u.time) (pq.contents (pq.pop q))
  pop-All a q t e h = weigh-All a _ (
      omega (
        arith,
        All-weigh a (pq.contents q) h,
        pq.pop_lem (λ u. if leb a u.time then 0 else 1) q t e,
      ))

  All-from :
      (a : ℕ) (ts : List Trigger) → a ≤ now → All (λ u. now < u.time) ts → All (λ u. a ≤ u.time) ts
  All-from a [] le h = tt
  All-from a (t ∷ ts) le h = (omega (arith, le, h.0), All-from a ts le h.1)

  All-emplace_all :
      (a : ℕ) (ts : List Trigger) (q : pq.Queue)
      → a ≤ now
      → All (λ u. now < u.time) ts
      → All (λ u. a ≤ u.time) (pq.contents q)
      → All (λ u. a ≤ u.time) (pq.contents (emplace_all pq ts q))
  All-emplace_all a ts q le late h = weigh-All a _ (
      omega (
        arith,
        All-weigh a (pq.contents q) h,
        All-weigh a ts (All-from a ts le late),
        emplace_all-weigh pq (λ u. if leb a u.time then 0 else 1) ts q,
      ))

  pop-due_weight :
      (q : pq.Queue) (t : Trigger) (ts : List Trigger)
      → pq.top q ≡ some t
      → leb t.time now ≡ true
      → All (λ u. now < u.time) ts
      → 1 + weigh due_weight (pq.contents (emplace_all pq ts (pq.pop q)))
        ≡ weigh due_weight (pq.contents q)
  unfolding due_weight
  pop-due_weight q t ts e d late = ground (
    arith,
    d,
    pq.pop_lem due_weight q t e,
    late-due_weight ts late,
    emplace_all-weigh pq due_weight ts (pq.pop q),
  )

module _ (pq : PriorityQueue) {S : Type 0} (execute : Trigger → S → S × List Trigger) (now : ℕ)
    (inserts_later : (t : Trigger) (s : S) → All (λ u. now < u.time) (execute t s).1) where
  -- A turn in front of the others.
  Drained-first :
      (first : ℕ) (t : Trigger) (q q' : pq.Queue) (s s' : S) (ran : List Trigger)
      → pq.top q ≡ some t
      → t.time ≤ now
      → first ≤ t.time
      → Drained pq execute now t.time
          (emplace_all pq (execute t s).1 (pq.pop q))
          (execute t s).0
          q'
          s'
          ran
      → Drained pq execute now first q s q' s' (t ∷ ran)
  Drained-first first t q q' s s' ran e d le k = record {
    runs = k.runs;
    due = (d, k.due);
    waits = k.waits;
    same = λ f. omega (
      arith,
      k.same f,
      pq.pop_lem f q t e,
      emplace_all-weigh pq f (execute t s).1 (pq.pop q),
      weigh-append f (execute t s).1 (inserted_by execute ran (execute t s).0),
    );
    in_order = (le, k.in_order);
  }

  drain_from :
      (fuel first : ℕ) (q : pq.Queue) (s : S)
      → weigh (due_weight pq execute now) (pq.contents q) < fuel
      → All (λ t. first ≤ t.time) (pq.contents q)
      → (q' : pq.Queue) × (s' : S) × (ran : List Trigger) × (drain pq execute now fuel q s
          ≡ some (q', s'))
        × Drained pq execute now first q s q' s' ran
  drain_from zero first q s l h = absurd (omega arith)
  drain_from (suc fuel) first q s l h = elim (Option-cases (pq.top q)) [
    | inl e ↦ (
      q,
      s,
      [],
      drain-none pq execute now fuel q s e,
      record {
        runs = refl;
        due = tt;
        waits = subst (All (λ t. now < t.time)) (sym (pq.top-none q e)) tt;
        same = λ f. omega arith;
        in_order = tt;
      },
    )
    | inr (t, e) ↦ elim (Bool-cases (leb t.time now)) [
      | inr d ↦ (
        q,
        s,
        [],
        drain-waits pq execute now fuel q s t e d,
        record {
          runs = refl;
          due = tt;
          waits =
              All-later pq execute now now t.time _ (later pq execute now now t.time d)
                (pq.top-least q t e);
          same = λ f. omega arith;
          in_order = tt;
        },
      )
      | inl d ↦
          (let (q', s', ran, r, k) =
              drain_from fuel t.time (emplace_all pq (execute t s).1 (pq.pop q)) (execute t s).0
                (omega (
                  arith,
                  pop-due_weight pq execute now q t (execute t s).1 e d (inserts_later t s),
                ))
                (All-emplace_all pq execute now t.time (execute t s).1 (pq.pop q) (leb→le _ _ d)
                  (inserts_later t s) (pop-All pq execute now t.time q t e (pq.top-least q t e))) in
            (
              q',
              s',
              t ∷ ran,
              drain-due pq execute now fuel q s t e d ∙ r,
              Drained-first first t q q' s s' ran e (leb→le _ _ d)
                  (top-All pq execute now first q t e h) k,
            ))
    ]
  ]

  All-zero : (ts : List Trigger) → All (λ t. 0 ≤ t.time) ts
  All-zero [] = tt
  All-zero (t ∷ ts) = (omega arith, All-zero ts)

  -- Where what the executed actions insert into the queue is not due yet: with one turn for each
  -- stored trigger and one more, draining comes to its end. It has run the triggers that are due,
  -- each once and in the order of their times, and no other; all that are not due, and those that
  -- have been inserted, are left in the queue.
  pub drain-Drained :
      (q : pq.Queue) (s : S)
      → (q' : pq.Queue) × (s' : S) × (ran : List Trigger) × (drain pq execute now
            (suc (length (pq.contents q)))
            q
            s
          ≡ some (q', s'))
        × Drained pq execute now 0 q s q' s' ran
  drain-Drained q s =
      drain_from (suc (length (pq.contents q))) 0 q s
        (omega (arith, due_weight-length pq execute now (pq.contents q))) (All-zero (pq.contents q))
