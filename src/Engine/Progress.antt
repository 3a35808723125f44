-- ===== src/Engine/Progress.antt =====
-- The progress of a simulation and its reports: engine/src/utility/progress.hpp and
-- engine/src/simulation_progress.hpp. A share is counted in thousandths, rounded down, and times in
-- nanoseconds; the texts are left out. None stands for an assertion that does not hold.
use cloe.Prelude.{
  ℕ, zero, suc, ◌+◌, ◌-◌, ◌*◌, ◌/◌, ◌≡◌, ◌≤◌, ◌<◌, ◌⊎◌, inl, inr, refl, Bool, true, false, Option,
  none, some, List, [], ◌∷◌, ◌&&◌, not, if◌then◌else◌, ◌==◌, ltb, leb, arith,
}
use cloe.Prelude.Int.{ℤ, pos, negsuc}
pub mod Counting
pub mod Reports
mod Examples

pub record Progress : Type 0 where
  pub prev : ℕ
  pub cur : ℕ
  pub beg : ℕ
  pub end : ℕ
  pub eta : ℕ

unfoldable pub begin : ℕ → Progress → Progress
begin now p = record p { beg = now }

unfoldable pub finish : ℕ → Progress → Progress
finish now p = record p { end = now; eta = 0; cur = 1000 }

unfoldable pub is_ended : Progress → Bool
is_ended p = p.cur == 1000 && p.eta == 0

-- The new estimate; the share is not zero.
unfoldable pub remaining : ℕ → ℕ → ℕ
remaining elapsed zero = 0
remaining elapsed (suc share) = elapsed * 1000 / suc share - elapsed

unfoldable pub update : ℕ → ℕ → Progress → Option Progress
unfolding remaining
update share now p =
    if share == 0
    then some p
    else if leb share 1000 && ltb p.beg now
    then some (record p { prev = p.cur; eta = remaining (now - p.beg) share; cur = share })
    else none

-- The share between nothing and the whole.
unfoldable pub corrected : ℤ → ℕ
corrected (pos n) = if ltb 1000 n then 1000 else n
corrected (negsuc n) = 0

unfoldable pub update_safe : ℤ → ℕ → Progress → Option Progress
unfolding corrected update
update_safe share now p = update (corrected share) now p

unfoldable pub elapsed : ℕ → Progress → ℤ
elapsed now p =
    if ltb p.cur 1000
    then pos (now - p.beg)
    else if leb p.beg p.end
    then pos (p.end - p.beg)
    else negsuc (p.beg - p.end - 1)

pub record SimulationProgress : Type 0 where
  pub initialization : Progress
  pub initialization_n : ℕ
  pub initialization_k : ℕ
  pub execution : Progress
  pub execution_eta : ℕ
  pub report_granularity_p : ℕ
  pub report_granularity_d : ℕ
  pub execution_report_p : ℕ
  pub execution_report_t : ℕ

unfoldable pub init_begin : ℕ → ℕ → SimulationProgress → SimulationProgress
unfolding begin
init_begin n now s = record s {
  initialization = begin now s.initialization;
  initialization_n = n;
  initialization_k = 0;
}

unfoldable pub init : ℕ → SimulationProgress → Option SimulationProgress
unfolding update
init now s =
    let k = s.initialization_k + 1 in
    if s.initialization_n == 0
    then none
    else elim (update (k * 1000 / s.initialization_n) now s.initialization) [
      | none ↦ none
      | (some p) ↦ some (record s { initialization = p; initialization_k = k })
    ]

unfoldable pub init_end : ℕ → SimulationProgress → Option SimulationProgress
unfolding finish
init_end now s =
    let k = s.initialization_k + 1 in
    if k == s.initialization_n
    then some (record s { initialization = finish now s.initialization; initialization_k = k })
    else none

unfoldable pub exec_begin : ℕ → SimulationProgress → SimulationProgress
unfolding begin
exec_begin now s = record s {
  execution = begin now s.execution;
  execution_report_p = 0;
  execution_report_t = now;
}

unfoldable pub exec_update : ℤ → ℕ → SimulationProgress → Option SimulationProgress
unfolding update_safe
exec_update share now s = elim (update_safe share now s.execution) [
  | none ↦ none
  | (some p) ↦ some (record s { execution = p })
]

-- Of the time of the simulation.
unfoldable pub exec_update_time : ℕ → ℕ → SimulationProgress → Option SimulationProgress
unfolding exec_update
exec_update_time time now s = elim s.execution_eta [
  | zero ↦ some s
  | (suc eta) ↦ exec_update (pos (time * 1000 / suc eta)) now s
]

unfoldable pub exec_end : ℕ → SimulationProgress → SimulationProgress
unfolding finish
exec_end now s = record s { execution = finish now s.execution }

-- With whether there is something to report.
unfoldable pub exec_report : ℕ → SimulationProgress → SimulationProgress × Bool
unfolding is_ended
exec_report now s =
    if s.execution_report_p == 1000
    then (s, false)
    else if s.execution_eta == 0
    then (s, false)
    else if is_ended s.execution
    then (record s { execution_report_p = 1000; execution_report_t = now }, true)
    else if ltb (s.execution_report_p + s.report_granularity_p) s.execution.cur
    then (record s { execution_report_p = s.execution.cur; execution_report_t = now }, true)
    else if ltb (s.execution_report_t + s.report_granularity_d) now
    then (record s { execution_report_p = s.execution.cur; execution_report_t = now }, true)
    else (s, false)

-- A run of the execution: for each step, the time of the simulation and that of the wall clock. The
-- result has the number of reports, as the beginning of a step makes them.
unfoldable pub exec_steps : List (ℕ × ℕ) → SimulationProgress → ℕ → Option (SimulationProgress × ℕ)
unfolding exec_update_time exec_report
exec_steps [] s n = some (s, n)
exec_steps (t ∷ ts) s n = elim (exec_update_time t.0 t.1 s) [
  | none ↦ none
  | (some s') ↦ exec_steps ts (exec_report t.1 s').0 (if (exec_report t.1 s').1 then n + 1 else n)
]
