-- ===== src/Engine/Progress/Counting.antt =====
-- How many reports there have been, and what updates and reports of the execution leave of it.
use cloe.Prelude.{
  ℕ, zero, suc, ◌+◌, ◌*◌, ◌/◌, ◌≡◌, ◌≤◌, ◌⊎◌, inl, inr, refl, Bool-cases, Option, none, some,
  if◌then◌else◌, ◌==◌, ltb, arith,
}
use cloe.Prelude.Int.{pos}
use cloe.Engine.Progress.{
  Progress, update, update_safe, corrected, is_ended, SimulationProgress, exec_update, exec_report,
}

share_mono : (a b k : ℕ) → a ≤ b → a * 1000 / suc k ≤ b * 1000 / suc k
share_mono a b k h = grind arith

-- The reports so far: some for a share that has grown by its granularity, some for a time that has
-- passed, and the last one.
pub record Counted (t₀ : ℕ) (s : SimulationProgress) (n a b f : ℕ) : Type 0 where
  pub total : n ≤ a + b + f
  pub shares : a * s.report_granularity_p ≤ s.execution_report_p
  pub times : b * s.report_granularity_d + t₀ ≤ s.execution_report_t
  pub last : (f ≡ 0) ⊎ ((f ≡ 1) × (s.execution_report_p ≡ 1000))
  pub behind : (s.execution_report_p ≤ s.execution.cur) ⊎ (s.execution_report_p ≡ 1000)
  pub within : (s.execution.cur ≤ 1000) × (s.execution_report_p ≤ 1000)

pub exec_report-Counted :
    (t₀ now : ℕ) (s : SimulationProgress) (n a b f : ℕ)
    → Counted t₀ s n a b f
    → s.execution_report_t ≤ now
    → (a' : ℕ) × (b' : ℕ) × (f' : ℕ) × Counted t₀
        (exec_report now s).0
        (if (exec_report now s).1 then n + 1 else n)
        a'
        b'
        f'
unfolding exec_report
exec_report-Counted t₀ now s n a b f c later = elim (Bool-cases (s.execution_report_p == 1000)) [
  | inl done ↦ (a, b, f, rw done c)
  | inr open_ended ↦ elim (Bool-cases (s.execution_eta == 0)) [
    | inl unknown ↦ (a, b, f, rw (open_ended, unknown) c)
    | inr known ↦ elim (Bool-cases (is_ended s.execution)) [
      | inl ended ↦ (a, b, 1, rw (open_ended, known, ended) (grind arith))
      | inr running ↦
          elim (Bool-cases (ltb (s.execution_report_p + s.report_granularity_p) s.execution.cur)) [
            | inl ahead ↦ (a + 1, b, 0, rw (open_ended, known, running, ahead) (grind arith))
            | inr near ↦
                elim (Bool-cases (ltb (s.execution_report_t + s.report_granularity_d) now)) [
                  | inl late ↦
                      (a, b + 1, 0, rw (open_ended, known, running, near, late) (grind arith))
                  | inr early ↦ (a, b, f, rw (open_ended, known, running, near, early) c)
                ]
          ]
    ]
  ]
]

-- What an update of the execution leaves, and how the share moves.
pub record Updated (bound : ℕ) (s s' : SimulationProgress) : Type 0 where
  pub report_p : s'.execution_report_p ≡ s.execution_report_p
  pub report_t : s'.execution_report_t ≡ s.execution_report_t
  pub granularity_p : s'.report_granularity_p ≡ s.report_granularity_p
  pub granularity_d : s'.report_granularity_d ≡ s.report_granularity_d
  pub same_eta : s'.execution_eta ≡ s.execution_eta
  pub grown : s.execution.cur ≤ s'.execution.cur
  pub bounded : s'.execution.cur ≤ bound

corrected-le : (n : ℕ) → corrected (pos n) ≤ 1000
unfolding corrected
corrected-le n = ground arith

corrected_mono : (a b : ℕ) → a ≤ b → corrected (pos a) ≤ corrected (pos b)
unfolding corrected
corrected_mono a b h = ground arith

update-cur :
    (share now : ℕ) (p p' : Progress)
    → p.cur ≤ share
    → update share now p ≡ some p'
    → (p.cur ≤ p'.cur) × (p'.cur ≤ share)
unfolding update
update-cur share now p p' below e = ground arith

stored-Updated :
    (bound : ℕ) (s s' : SimulationProgress) (o : Option Progress)
    → ((p : Progress) → o ≡ some p → (s.execution.cur ≤ p.cur) × (p.cur ≤ bound))
    → elim o [ none ↦ none | (some p) ↦ some (record s { execution = p }) ] ≡ some s'
    → Updated bound s s'
stored-Updated bound s s' none moved e = cc
stored-Updated bound s s' (some p) moved e = let facts = moved p refl in ground arith

exec_update-Updated :
    (share now : ℕ) (s s' : SimulationProgress)
    → s.execution.cur ≤ corrected (pos share)
    → exec_update (pos share) now s ≡ some s'
    → Updated (corrected (pos share)) s s'
unfolding exec_update update_safe
exec_update-Updated share now s s' below e =
    stored-Updated (corrected (pos share)) s s' (update (corrected (pos share)) now s.execution)
      (λ p stored. update-cur (corrected (pos share)) now s.execution p below stored) e

-- The share that a time of the simulation stands for.
pub share_of : ℕ → ℕ → ℕ
share_of zero time = 0
share_of (suc eta) time = corrected (pos (time * 1000 / suc eta))

pub share_of_mono : (eta a b : ℕ) → a ≤ b → share_of eta a ≤ share_of eta b
unfolding share_of
share_of_mono zero a b h = omega arith
share_of_mono (suc eta) a b h = corrected_mono _ _ (share_mono a b eta h)

pub exec_update_time-Updated :
    (eta time now : ℕ) (s s' : SimulationProgress)
    → s.execution_eta ≡ eta
    → s.execution.cur ≤ share_of eta time
    → elim eta [ zero ↦ some s | (suc e) ↦ exec_update (pos (time * 1000 / suc e)) now s ] ≡ some s'
    → Updated (share_of eta time) s s'
unfolding share_of
exec_update_time-Updated zero time now s s' same below e = ground arith
exec_update_time-Updated (suc eta) time now s s' same below e =
    exec_update-Updated (time * 1000 / suc eta) now s s' below e

-- An update leaves the count as it is.
pub Updated-Counted :
    (bound t₀ n a b f : ℕ) (s s' : SimulationProgress)
    → Updated bound s s'
    → bound ≤ 1000
    → Counted t₀ s n a b f
    → Counted t₀ s' n a b f
Updated-Counted bound t₀ n a b f s s' u le c = grind arith

pub share_of-le : (eta time : ℕ) → share_of eta time ≤ 1000
unfolding share_of
share_of-le zero time = omega arith
share_of-le (suc eta) time = corrected-le (time * 1000 / suc eta)

-- What a report leaves.
pub record Reported (now : ℕ) (s s' : SimulationProgress) : Type 0 where
  pub report_t : (s'.execution_report_t ≡ s.execution_report_t) ⊎ (s'.execution_report_t ≡ now)
  pub granularity_p : s'.report_granularity_p ≡ s.report_granularity_p
  pub granularity_d : s'.report_granularity_d ≡ s.report_granularity_d
  pub same_eta : s'.execution_eta ≡ s.execution_eta
  pub same_cur : s'.execution.cur ≡ s.execution.cur

pub exec_report-Reported : (now : ℕ) (s : SimulationProgress) → Reported now s (exec_report now s).0
unfolding exec_report
exec_report-Reported now s = ground arith
