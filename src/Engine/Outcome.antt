-- ===== src/Engine/Outcome.antt =====
-- Which outcome a run can report: engine/src/simulation_outcome.hpp and the states that decide.
use cloe.Prelude.{ℕ, zero, suc, ◌≡◌, refl, ◌≢◌, Option, none, some, subst}
use cloe.Engine.Types.{StateId, SimulationOutcome, Kind, controller, vehicle, simulator}
use cloe.Engine.Context.{Config, Context, World, initial}
use cloe.Engine.Monad.{modify, gets, pure, ◌>>=◌}
use cloe.Engine.Keeps.{IsStable}
use cloe.Engine.States.Setup.{added, decide, connect_impl}
use cloe.Engine.States.Ending.{mark_stopped}
use cloe.Engine.States.Writes.{
  Writes, Decides, no_start_by_connect, no_start_by_abort, probing_by_probe, success_by_success,
  failure_by_fail, aborted_by_abort,
}
use cloe.Engine.States.Writes.All.{impl-Keeps, connect_rest-Keeps}
use cloe.Engine.Machine.{count_call, impl, run_machine}
use cloe.Engine.Machine.Rule.{IsBlind, Inside, run_machine-leaves}

-- Some outcome is decided, and it is not that of a simulation that was merely stopped.
abbrev IsDecided : Option SimulationOutcome → Type 0
IsDecided none = ⊥
IsDecided (some SimulationOutcome.stopped) = ⊥
IsDecided (some o) = Unit {0}

Decides-IsDecided : (s : StateId) (o : SimulationOutcome) → Decides s o → IsDecided (some o)
Decides-IsDecided s o no_start_by_connect = tt
Decides-IsDecided s o no_start_by_abort = tt
Decides-IsDecided s o probing_by_probe = tt
Decides-IsDecided s o success_by_success = tt
Decides-IsDecided s o failure_by_fail = tt
Decides-IsDecided s o aborted_by_abort = tt

module _ {W : Type 0} where
  abbrev Decided : Context W → Type 0
  Decided c = IsDecided c.outcome

  Decided-IsStable : IsStable Decided
  Decided-IsStable = record {
    interrupts = λ c i p. p;
    keeps_alive = λ c p. p;
    factors = λ c f p. p;
    etas = λ c t p. p;
    calls_out = λ c a t p. p;
  }

  Decided-IsBlind : IsBlind Decided
  Decided-IsBlind = record {
    transitions = λ c f p. p;
    prev_states = λ c s p. p;
    pauses = λ c b p. p;
  }

  added-Decided : (c : Context W) (k : Kind) (n : ℕ) → Decided c → Decided (added k n c)
  added-Decided c controller n p = p
  added-Decided c vehicle n p = p
  added-Decided c simulator n p = p

  mark_stopped-at :
      (c : Context W) (o : Option SimulationOutcome)
      → c.outcome ≡ o
      → IsDecided o
      → Decided (mark_stopped c).1
  unfolding mark_stopped decide modify gets pure ◌>>=◌
  mark_stopped-at c none e p = absurd p
  mark_stopped-at c (some o) e p = rw e p

  Decided-Writes : (s : StateId) → Writes s Decided
  Decided-Writes s = record {
    outcomes = λ c o d p. Decides-IsDecided s o d;
    stopping = record { at = λ c p. mark_stopped-at c c.outcome refl p };
    models_in = added-Decided;
    controllers_in = λ c ns p. p;
    probes = λ c p. p;
    listens = λ c b p. p;
    cycles = λ c t p. p;
    steps = λ c p. p;
    results = λ c r p. p;
  }

  Decided-Inside : (w : World W) → Inside w Decided (λ s. Decided)
  unfolding count_call
  Decided-Inside w = record {
    enter = λ s c p. p;
    within = λ s. impl-Keeps w Decided-IsStable s (Decided-Writes s);
    leave = λ s c p. p;
  }

  connect-Decided : (w : World W) (c : Context W) → Decided (impl w StateId.connect c).1
  unfolding impl connect_impl decide modify ◌>>=◌
  connect-Decided w c =
      (connect_rest-Keeps w Decided-IsStable (Decided-Writes StateId.connect)).at _ tt

-- A simulation that was not started under an interrupt never has the outcome `stopped`: `connect`
-- decides on `no_start`, and `stop` does not replace an outcome that is decided.
pub run_machine-ne-stopped :
    {W : Type 0} (w : World W) (config : Config) (width : ℕ) (a : W) (fuel : ℕ)
    → (run_machine w fuel (some StateId.connect) (initial config width a)).1.outcome
      ≢ some SimulationOutcome.stopped
unfolding initial run_machine
run_machine-ne-stopped w config width a zero e = cc
run_machine-ne-stopped w config width a (suc fuel) e = subst IsDecided e (
    run_machine-leaves w Decided-IsStable Decided-IsBlind (Decided-Inside w) fuel StateId.connect
      (initial config width a) refl (connect-Decided w _))
