-- ===== src/Engine/Tests.antt =====
-- Runs of the engine in the sample worlds.
use cloe.Prelude.{◌≡◌, refl}
use cloe.Engine.Types.{SimulationOutcome, ok}
use cloe.Engine.Machine.{ended}
use cloe.Engine.Execution.{execute}
use cloe.Engine.Samples.{calm, small}

calm_ends : (execute calm 30 small 20 tt).0 ≡ ok (ended, SimulationOutcome.no_start)
unfolding execute
calm_ends = refl

calm_steps : (execute calm 30 small 20 tt).1.sync.step ≡ 3
unfolding execute
calm_steps = refl
