-- ===== src/Hmi/Repeats.antt =====
-- How a button of plugins/basic/src/hmi_contact.hpp that is held repeats.
use cloe.Prelude.{
  ℕ, suc, ◌+◌, ◌-◌, ◌≤◌, ◌<◌, ◌≡◌, refl, Bool, true, false, none, some, List, [], ◌∷◌, ltb,
  Bool-cases, ap, sym, subst, ◌⊎◌, inl, inr, ◌*◌, if◌then◌else◌, arith, ◌==◌, ◌∙◌,
}
use cloe.Hmi.Buttons.{PushButton, make_button, hold, update, updates}

-- `s` is held since `start`, and each repeat has waited for its time: the first one for `d`, the
-- others for `i`.
IsSpaced : ℕ → ℕ → ℕ → PushButton ℕ → Type 0
IsSpaced start d i s =
    (s.active ≡ true)
    × (s.delay ≡ d)
    × (s.interval ≡ i)
    × (((s.repeated ≡ false) × (s.target ≡ 0) × (s.last_event ≡ start))
        ⊎ ((s.repeated ≡ true) × (n : ℕ) × (s.target ≡ suc n) × (start + d + n * i < s.last_event)))

hold-IsSpaced :
    (start d i t : ℕ) (s : PushButton ℕ)
    → s.last_event ≤ t
    → IsSpaced start d i s
    → IsSpaced start d i (hold (some suc) t s) × ((hold (some suc) t s).last_event ≤ t)
unfolding IsSpaced hold
hold-IsSpaced start d i t s l (a, hd, hi, inl h) =
    elim (Bool-cases (ltb s.delay (t - s.last_event))) [
      | inl e ↦ rw (h.0, e) ((a, hd, hi, inr (refl, 0, ap suc h.1, ground arith)), omega arith)
      | inr e ↦ rw (h.0, e) ((a, hd, hi, inl (refl, h.1, h.2)), l)
    ]
hold-IsSpaced start d i t s l (a, hd, hi, inr h) =
    elim (Bool-cases (ltb s.interval (t - s.last_event))) [
      | inl e ↦
          rw (h.0, e) ((a, hd, hi, inr (refl, suc h.1, ap suc h.2, ground arith)), omega arith)
      | inr e ↦ rw (h.0, e) ((a, hd, hi, inr (refl, h.1, h.2, h.3)), l)
    ]

-- The times do not run backwards, and end by `end`.
abbrev pub Ordered : ℕ → List ℕ → ℕ → Type 0
Ordered a [] end = a ≤ end
Ordered a (t ∷ ts) end = (a ≤ t) × Ordered t ts end

-- The events of a button that is held.
abbrev pub pressed : List ℕ → List (ℕ × Bool)
pressed [] = []
pressed (t ∷ ts) = (t, true) ∷ pressed ts

update-hold :
    (t : ℕ) (s : PushButton ℕ)
    → s.active ≡ true
    → update (λ x. x) (some suc) t true s ≡ some (hold (some suc) t s)
unfolding update hold
update-hold t s a = simp a

updates-IsSpaced :
    (ts : List ℕ) (start d i a end : ℕ) (s : PushButton ℕ)
    → s.last_event ≤ a
    → Ordered a ts end
    → IsSpaced start d i s
    → (r : PushButton ℕ) × (updates (λ x. x) (some suc) (pressed ts) s ≡ some r)
      × IsSpaced start d i r
      × (r.last_event ≤ end)
unfolding updates IsSpaced
updates-IsSpaced [] start d i a end s l o h = (s, refl, h, omega arith)
updates-IsSpaced (t ∷ ts) start d i a end s l (p, o) h =
    let (h', l') = hold-IsSpaced start d i t s (omega arith) h in
    let (r, e, k, q) = updates-IsSpaced ts start d i t end (hold (some suc) t s) l' o h' in
    (
      r,
      subst
          (λ o.
            elim o [ none ↦ none | some v ↦ updates (λ x. x) (some suc) (pressed ts) v ] ≡ some r)
          (sym (update-hold t s h.0)) e,
      k,
      q,
    )

at_pred :
    (start d i n last end : ℕ)
    → start + d + n * i < last
    → last ≤ end
    → start + d + (suc n - 1) * i < end
at_pred start d i n last end b l = ground arith

repeats_of :
    (start d i end : ℕ) (s : PushButton ℕ)
    → IsSpaced start d i s
    → s.last_event ≤ end
    → (s.target ≡ 0) ⊎ (start + d + (s.target - 1) * i < end)
unfolding IsSpaced
repeats_of start d i end s (a, hd, hi, inl h) l = inl h.1
repeats_of start d i end s (a, hd, hi, inr (h, n, e, b)) l =
    inr (rw e (at_pred start d i n s.last_event end b l))

abbrev just_pressed : ℕ → PushButton ℕ
just_pressed start = record {
  active = true;
  last_event = start;
  repeated = false;
  delay = 500_000_000;
  interval = 250_000_000;
  target = 0;
}

-- The times at which a button that is held changes its variable.
abbrev pub repeat_times : List ℕ → PushButton ℕ → List ℕ
repeat_times [] s = []
repeat_times (t ∷ ts) s = elim (update (λ x. x) (some suc) t true s) [
  | none ↦ []
  | (some s') ↦ let rest = repeat_times ts s' in if s'.target == s.target then rest else t ∷ rest
]

-- The first time comes later than `first` after `last`, and each other one later than `gap` after
-- the one in front of it.
abbrev pub Apart : ℕ → ℕ → ℕ → List ℕ → Type 0
Apart last first gap [] = Unit
Apart last first gap (t ∷ ts) = (last + first < t) × Apart t gap gap ts

hold_time :
    (t : ℕ) (ts : List ℕ) (s : PushButton ℕ)
    → s.active ≡ true
    → repeat_times (t ∷ ts) s ≡ (
        if (hold (some suc) t s).target == s.target
        then repeat_times ts (hold (some suc) t s)
        else t ∷ repeat_times ts (hold (some suc) t s))
hold_time t ts s a =
    ap
      (λ o. elim o [
        | none ↦ []
        | (some s') ↦
            let rest = repeat_times ts s' in if s'.target == s.target then rest else t ∷ rest
      ])
      (update-hold t s a)

-- A repeat, of a button that has waited for long enough.
abbrev repeated_at : ℕ → PushButton ℕ → PushButton ℕ
repeated_at t s = record s { target = suc s.target; last_event = t; repeated = true }

hold_cases :
    (t : ℕ) (s : PushButton ℕ)
    → (hold (some suc) t s ≡ s)
      ⊎ ((s.last_event + (if s.repeated then s.interval else s.delay) < t)
          × (hold (some suc) t s ≡ repeated_at t s))
unfolding hold
hold_cases t s = elim (Bool-cases s.repeated) [
  | inl r ↦ elim (Bool-cases (ltb s.interval (t - s.last_event))) [
    | inl e ↦ inr (rw r (ground (arith, e)), rw (r, e) refl)
    | inr e ↦ inl (rw (r, e) refl)
  ]
  | inr r ↦ elim (Bool-cases (ltb s.delay (t - s.last_event))) [
    | inl e ↦ inr (rw r (ground (arith, e)), rw (r, e) refl)
    | inr e ↦ inl (rw (r, e) refl)
  ]
]

skipped_time :
    (t : ℕ) (ts : List ℕ) (s : PushButton ℕ)
    → s.active ≡ true
    → hold (some suc) t s ≡ s
    → repeat_times (t ∷ ts) s ≡ repeat_times ts s
skipped_time t ts s a e = hold_time t ts s a ∙ rw e (ground (arith))

taken_time :
    (t : ℕ) (ts : List ℕ) (s : PushButton ℕ)
    → s.active ≡ true
    → hold (some suc) t s ≡ repeated_at t s
    → repeat_times (t ∷ ts) s ≡ t ∷ repeat_times ts (repeated_at t s)
taken_time t ts s a e =
    hold_time t ts s a
    ∙ ap (λ s'. if s'.target == s.target then repeat_times ts s' else t ∷ repeat_times ts s') e
    ∙ ground arith

held-Apart :
    (ts : List ℕ) (s : PushButton ℕ)
    → s.active ≡ true
    → Apart s.last_event (if s.repeated then s.interval else s.delay) s.interval (repeat_times ts s)
held-Apart [] s a = tt
held-Apart (t ∷ ts) s a = elim (hold_cases t s) [
  | inl e ↦
      subst (Apart s.last_event (if s.repeated then s.interval else s.delay) s.interval)
        (sym (skipped_time t ts s a e)) (held-Apart ts s a)
  | inr (late, e) ↦
      subst (Apart s.last_event (if s.repeated then s.interval else s.delay) s.interval)
        (sym (taken_time t ts s a e)) (late, held-Apart ts (repeated_at t s) a)
]

-- A button that is pressed at `start` and held until `end` repeats no earlier than its delay
-- allows, and from then on no more often than once in each interval: each repeat comes later than
-- the interval after the one before, and so there are no more of them than intervals.
pub updates-spacing :
    (start end : ℕ) (ts : List ℕ)
    → Ordered start ts end
    → ((r : PushButton ℕ) × (updates (λ x. x) (some suc) (pressed (start ∷ ts)) (make_button 0)
          ≡ some r)
        × ((r.target ≡ 0) ⊎ (start + 500_000_000 + (r.target - 1) * 250_000_000 < end)))
      × Apart start 500_000_000 250_000_000 (repeat_times (start ∷ ts) (make_button 0))
unfolding updates update make_button IsSpaced
updates-spacing start end ts o =
    let (r, e, h, l) =
      updates-IsSpaced ts start 500_000_000 250_000_000 start end (just_pressed start) (omega arith)
        o (refl, refl, refl, inl (refl, refl, refl)) in
    (
      (r, e, repeats_of start 500_000_000 250_000_000 end r h l),
      held-Apart ts (just_pressed start) refl,
    )
