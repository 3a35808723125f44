-- ===== src/Engine/Progress/Examples.antt =====
-- Examples of the progress of an execution.
use cloe.Prelude.{ℕ, ◌+◌, ◌*◌, ◌≤◌, ◌≡◌, refl, arith, true, List, [], ◌∷◌}
use cloe.Prelude.Int.{is_negative}
use cloe.Engine.Progress.{
  Progress, update, update_safe, corrected, remaining, is_ended, elapsed, SimulationProgress,
  exec_begin, begin, exec_update, exec_update_time, exec_report, exec_steps,
}
use cloe.Engine.Progress.Reports.{Ordered, last_now, exec_steps-limits}

abbrev fresh : Progress
fresh = record { prev = 0; cur = 0; beg = 0; end = 0; eta = 0 }

abbrev ten_seconds : SimulationProgress
ten_seconds = record {
  initialization = fresh;
  initialization_n = 0;
  initialization_k = 0;
  execution = fresh;
  execution_eta = 1000;
  report_granularity_p = 100;
  report_granularity_d = 10000000000;
  execution_report_p = 0;
  execution_report_t = 0;
}

abbrev two_steps : List (ℕ × ℕ)
two_steps = (500, 20) ∷ (1000, 30) ∷ []

abbrev at_end : SimulationProgress
at_end = record ten_seconds {
  execution = record { prev = 500; cur = 1000; beg = 10; end = 0; eta = 0 };
  execution_report_p = 1000;
  execution_report_t = 30;
}

exec_steps-limits_example :
    (a : ℕ) × (b : ℕ) × (2 ≤ a + b + 1)
    × (a * 100 ≤ 1000)
    × (b * 10000000000 + 10 ≤ last_now 10 two_steps)
unfolding Ordered exec_steps exec_begin begin exec_update_time exec_update update_safe corrected
    update remaining exec_report is_ended
exec_steps-limits_example =
    exec_steps-limits two_steps 10 2 ten_seconds at_end refl (omega arith) refl

-- At the whole, the execution counts as ended, and less than no time has elapsed.
ended_by_update :
    (is_ended at_end.execution ≡ true) × (is_negative (elapsed 40 at_end.execution) ≡ true)
unfolding is_ended elapsed
ended_by_update = (refl, refl)
