-- ===== src/Engine/Clock.antt =====
-- The simulation clock (engine/src/simulation_sync.hpp) in a run of the machine.
use cloe.Prelude.{ℕ, ◌*◌, ◌≡◌, refl, some, arith}
use cloe.Engine.Types.{
  StateId, SimulationSync, increment_step, Kind, controller, vehicle, simulator,
}
use cloe.Engine.Context.{Config, Context, World, initial}
use cloe.Engine.Keeps.{Keeps, IsStable, Keeps-gets, Keeps-bind, Keeps-if, Keeps-pure, Keeps-modify}
use cloe.Engine.States.Setup.{added, decide}
use cloe.Engine.States.Ending.{mark_stopped}
use cloe.Engine.States.Writes.{Writes}
use cloe.Engine.States.Writes.All.{impl-Keeps}
use cloe.Engine.Machine.{count_call, run_machine}
use cloe.Engine.Machine.Rule.{IsBlind, Inside, Keeps-run_machine}

-- The clock has counted steps of the width alone.
pub record ClockIs (width : ℕ) (s : SimulationSync) : Type 0 where
  pub width_kept : s.step_width ≡ width
  pub time_exact : s.time ≡ s.step * width

increment_step-ClockIs :
    (width : ℕ) (s : SimulationSync) → ClockIs width s → ClockIs width (increment_step s)
unfolding increment_step
increment_step-ClockIs width s h = record {
  width_kept = h.width_kept;
  time_exact = grind (arith, h.width_kept, h.time_exact);
}

module _ {W : Type 0} (width : ℕ) where
  abbrev Exact : Context W → Type 0
  Exact c = ClockIs width c.sync

  Exact-IsStable : IsStable Exact
  Exact-IsStable = record {
    interrupts = λ c i p. p;
    keeps_alive = λ c p. p;
    factors = λ c f p. record { width_kept = p.width_kept; time_exact = p.time_exact };
    etas = λ c t p. record { width_kept = p.width_kept; time_exact = p.time_exact };
    calls_out = λ c a t p. p;
  }

  Exact-IsBlind : IsBlind Exact
  Exact-IsBlind = record { transitions = λ c f p. p; prev_states = λ c s p. p; pauses = λ c b p. p }

  added-Exact : (c : Context W) (k : Kind) (n : ℕ) → Exact c → Exact (added k n c)
  added-Exact c controller n p = p
  added-Exact c vehicle n p = p
  added-Exact c simulator n p = p

  mark_stopped-Exact : Keeps Exact mark_stopped
  unfolding mark_stopped decide
  mark_stopped-Exact =
      Keeps-bind _ _ (Keeps-gets _) λ d. Keeps-if d _ _ (Keeps-pure tt) (Keeps-modify _ (λ c p. p))

  Exact-Writes : (s : StateId) → Writes s Exact
  Exact-Writes s = record {
    outcomes = λ c o d p. p;
    stopping = mark_stopped-Exact;
    models_in = added-Exact;
    controllers_in = λ c ns p. p;
    probes = λ c p. p;
    listens = λ c b p. p;
    cycles = λ c t p. record { width_kept = p.width_kept; time_exact = p.time_exact };
    steps = λ c p. increment_step-ClockIs width c.sync p;
    results = λ c r p. p;
  }

  Exact-Inside : (w : World W) → Inside w Exact (λ s. Exact)
  unfolding count_call
  Exact-Inside w = record {
    enter = λ s c p. p;
    within = λ s. impl-Keeps w Exact-IsStable s (Exact-Writes s);
    leave = λ s c p. p;
  }

-- In a run of any length, with any plugins, interrupts and exceptions, the simulation time is at
-- all times the step number times the configured step width, and the width does not change.
pub run_machine-ClockIs :
    {W : Type 0} (w : World W) (config : Config) (width : ℕ) (a : W) (fuel : ℕ)
    → ClockIs width (run_machine w fuel (some StateId.connect) (initial config width a)).1.sync
run_machine-ClockIs w config width a fuel =
    (Keeps-run_machine w (Exact-IsStable width) (Exact-IsBlind width) (Exact-Inside width w) fuel
        (some StateId.connect)).at
      _ start
  where
    start : ClockIs width (initial config width a).sync
    start = unfold initial in record { width_kept = refl; time_exact = omega arith }
