-- ===== src/Engine/Progress/Reports.antt =====
-- How often the progress of an execution is reported, and when it counts as ended.
use cloe.Prelude.{
  ℕ, ◌+◌, ◌-◌, ◌*◌, ◌≡◌, ◌≤◌, ◌<◌, inl, inr, refl, ap, sym, ◌∙◌, Option-cases, true, none, some,
  List, [], ◌∷◌, if◌then◌else◌, arith,
}
use cloe.Prelude.Int.{pos, is_negative}
use cloe.Engine.Progress.{
  Progress, update, update_safe, corrected, remaining, is_ended, elapsed, SimulationProgress,
  exec_begin, exec_update_time, exec_report, exec_steps,
}
use cloe.Engine.Progress.Counting.{
  Counted, Updated, Reported, exec_report-Counted, share_of, share_of_mono,
  exec_update_time-Updated, Updated-Counted, share_of-le, exec_report-Reported,
}

whole_remaining : (elapsed : ℕ) → remaining elapsed 1000 ≡ 0
unfolding remaining
whole_remaining elapsed = omega arith

whole_update :
    (now : ℕ) (p p' : Progress)
    → update 1000 now p ≡ some p'
    → (p'.cur ≡ 1000) × (p'.eta ≡ 0) × (p'.beg ≡ p.beg) × (p'.end ≡ p.end)
unfolding update
whole_update now p p' e = ground (arith, whole_remaining (now - p.beg))

whole_corrected : (share : ℕ) → 1000 ≤ share → corrected (pos share) ≡ 1000
unfolding corrected
whole_corrected share whole = ground arith

ended-negative :
    (later : ℕ) (p : Progress)
    → p.cur ≡ 1000
    → p.eta ≡ 0
    → p.end < p.beg
    → (is_ended p ≡ true) × (is_negative (elapsed later p) ≡ true)
unfolding is_ended elapsed
ended-negative later p whole done before = (ground arith, ground arith)

-- An update with the whole makes a progress count as ended, without its end; if the end that it
-- knows, that of an earlier run or none, lies before its beginning, then the time that has elapsed
-- is negative from then on.
pub update_safe-ends :
    (share now later : ℕ) (p p' : Progress)
    → 1000 ≤ share
    → p.end < p.beg
    → update_safe (pos share) now p ≡ some p'
    → (is_ended p' ≡ true) × (is_negative (elapsed later p') ≡ true)
unfolding update_safe
update_safe-ends share now later p p' whole before e =
    let known =
      whole_update now p p' (ap (λ x. update x now p) (sym (whole_corrected share whole)) ∙ e) in
    ended-negative later p' known.0 known.1 (omega (arith, known.2, known.3))

-- The times of the simulation and of the wall clock do not go back.
unfoldable pub Ordered : ℕ → ℕ → List (ℕ × ℕ) → Type 0
Ordered time now [] = Unit
Ordered time now (t ∷ ts) = (time ≤ t.0) × (now ≤ t.1) × Ordered t.0 t.1 ts

unfoldable pub last_now : ℕ → List (ℕ × ℕ) → ℕ
last_now now [] = now
last_now now (t ∷ ts) = last_now t.1 ts

-- What is known at the end of a run.
abbrev Bounded : ℕ → ℕ → ℕ → ℕ → ℕ → Type 0
Bounded n g d t₀ last = (a : ℕ) × (b : ℕ) × (n ≤ a + b + 1) × (a * g ≤ 1000) × (b * d + t₀ ≤ last)

Counted-Bounded :
    (t₀ last n a b f : ℕ) (s : SimulationProgress)
    → Counted t₀ s n a b f
    → s.execution_report_t ≤ last
    → Bounded n s.report_granularity_p s.report_granularity_d t₀ last
Counted-Bounded t₀ last n a b f s c before = (a, b, ground arith, ground arith, ground arith)

no_step :
    (t : ℕ × ℕ) (ts : List (ℕ × ℕ)) (s : SimulationProgress) (n : ℕ)
    → exec_update_time t.0 t.1 s ≡ none
    → exec_steps (t ∷ ts) s n ≡ none
unfolding exec_steps
no_step t ts s n e = rw (e, exec_steps) refl

next_step :
    (t : ℕ × ℕ) (ts : List (ℕ × ℕ)) (s s₁ : SimulationProgress) (n : ℕ)
    → exec_update_time t.0 t.1 s ≡ some s₁
    → exec_steps (t ∷ ts) s n
      ≡ exec_steps ts (exec_report t.1 s₁).0 (if (exec_report t.1 s₁).1 then n + 1 else n)
unfolding exec_steps
next_step t ts s s₁ n e = rw (e, exec_steps) refl

stepped :
    (time : ℕ) (t : ℕ × ℕ) (s s₁ : SimulationProgress)
    → s.execution.cur ≤ share_of s.execution_eta time
    → time ≤ t.0
    → exec_update_time t.0 t.1 s ≡ some s₁
    → Updated (share_of s.execution_eta t.0) s s₁
unfolding exec_update_time
stepped time t s s₁ below later e =
    exec_update_time-Updated s.execution_eta t.0 t.1 s s₁ refl
      (omega (arith, below, share_of_mono s.execution_eta time t.0 later)) e

same_granularities :
    (now n t₀ last : ℕ) (s s₁ s₂ : SimulationProgress) (bound : ℕ)
    → Updated bound s s₁
    → Reported now s₁ s₂
    → Bounded n s₂.report_granularity_p s₂.report_granularity_d t₀ last
    → Bounded n s.report_granularity_p s.report_granularity_d t₀ last
same_granularities now n t₀ last s s₁ s₂ bound u r bounded =
    rw (sym (r.granularity_p ∙ u.granularity_p), sym (r.granularity_d ∙ u.granularity_d)) bounded

rest_below :
    (now bound : ℕ) (s s₁ s₂ : SimulationProgress) (time : ℕ)
    → Updated bound s s₁
    → Reported now s₁ s₂
    → share_of s.execution_eta time ≡ bound
    → s₂.execution.cur ≤ share_of s₂.execution_eta time
rest_below now bound s s₁ s₂ time u r e = rw (r.same_eta ∙ u.same_eta, r.same_cur, e) u.bounded

rest_before :
    (earlier now bound : ℕ) (s s₁ s₂ : SimulationProgress)
    → Updated bound s s₁
    → Reported now s₁ s₂
    → s.execution_report_t ≤ earlier
    → earlier ≤ now
    → s₂.execution_report_t ≤ now
rest_before earlier now bound s s₁ s₂ u r before later = ground arith

exec_steps-Bounded :
    (ts : List (ℕ × ℕ)) (t₀ time now n n' a b f : ℕ) (s s' : SimulationProgress)
    → Counted t₀ s n a b f
    → s.execution.cur ≤ share_of s.execution_eta time
    → s.execution_report_t ≤ now
    → Ordered time now ts
    → exec_steps ts s n ≡ some (s', n')
    → Bounded n' s.report_granularity_p s.report_granularity_d t₀ (last_now now ts)
unfolding exec_steps Ordered last_now
exec_steps-Bounded [] t₀ time now n n' a b f s s' c below before ordered e =
    let same : n ≡ n' = cc in rw (← same) (Counted-Bounded t₀ now n a b f s c before)
exec_steps-Bounded (t ∷ ts) t₀ time now n n' a b f s s' c below before ordered e =
    elim (Option-cases (exec_update_time t.0 t.1 s)) [
      | inl failed ↦ absurd (grind (arith, no_step t ts s n failed))
      | inr (s₁, moved) ↦
          let u = stepped time t s s₁ below ordered.0 moved in
          let c₁ =
            Updated-Counted (share_of s.execution_eta t.0) t₀ n a b f s s₁ u
              (share_of-le s.execution_eta t.0) c in
          let r = exec_report-Reported t.1 s₁ in
          let (a', b', f', c') =
            exec_report-Counted t₀ t.1 s₁ n a b f c₁
              (omega (arith, u.report_t, before, ordered.1)) in
          same_granularities t.1 n' t₀ (last_now t.1 ts) s s₁ (exec_report t.1 s₁).0
            (share_of s.execution_eta t.0) u r
            (exec_steps-Bounded ts t₀ t.0 t.1 (if (exec_report t.1 s₁).1 then n + 1 else n) n' a' b'
              f' (exec_report t.1 s₁).0 s' c'
              (rest_below t.1 (share_of s.execution_eta t.0) s s₁ (exec_report t.1 s₁).0 t.0 u r
                refl)
              (rest_before now t.1 (share_of s.execution_eta t.0) s s₁ (exec_report t.1 s₁).0 u r
                before ordered.1)
              ordered.2 (sym (next_step t ts s s₁ n moved) ∙ e))
    ]

-- The reports of the progress of an execution, whatever its steps, as long as neither the time of
-- the simulation nor the wall clock goes back, and no assertion fails: there is at most one at the
-- end, and besides those `a` and `b` of them, where `a` times the granularity of the share is at
-- most the whole, and `b` times the granularity of the time is at most the time that has passed
-- since the beginning.
pub exec_steps-limits :
    (ts : List (ℕ × ℕ)) (start n : ℕ) (s s' : SimulationProgress)
    → s.execution.cur ≡ 0
    → Ordered 0 start ts
    → exec_steps ts (exec_begin start s) 0 ≡ some (s', n)
    → (a : ℕ) × (b : ℕ) × (n ≤ a + b + 1)
      × (a * s.report_granularity_p ≤ 1000)
      × (b * s.report_granularity_d + start ≤ last_now start ts)
unfolding exec_begin
exec_steps-limits ts start n s s' fresh ordered e =
    exec_steps-Bounded ts start 0 start 0 n 0 0 0 (exec_begin start s) s'
      (record {
        total = omega arith;
        shares = omega arith;
        times = omega arith;
        last = inl refl;
        behind = inl (omega arith);
        within = (omega arith, omega arith);
      })
      (omega arith) (omega arith) ordered e
