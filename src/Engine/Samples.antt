-- ===== src/Engine/Samples.antt =====
-- Worlds and contexts for the tests and examples of the engine.
use cloe.Prelude.{true, false, none, [], ◌∷◌, leb, if◌then◌else◌}
use cloe.Prelude.Int.{pos}
use cloe.Engine.Types.{StateId, SimulationSync, ok, on_loop}
use cloe.Engine.Context.{Config, Context, World, Answer, Command, trigger, push, initial}

abbrev quiet : {A : Type 0} → A → Answer A (Unit {0})
quiet a = record { result = ok a; effects = []; after = tt }

-- Every model follows the simulation, and the `loop` event stops it from the third step on.
abbrev pub calm_command : Command → SimulationSync → Unit {0} → Answer (Unit {0}) (Unit {0})
calm_command (trigger on_loop) s u = record {
  result = ok tt;
  effects = if leb 3 s.step then push StateId.stop ∷ [] else [];
  after = tt;
}
calm_command m s u = quiet tt

abbrev pub calm : World (Unit {0})
calm = record {
  command = calm_command;
  process = λ k n s u. quiet s.time;
  operational = λ k n u. true;
  has_vehicle = λ n u. true;
  elapsed = λ u. 5;
}

abbrev pub small : Config
small = record {
  probe_simulation = false;
  listen = false;
  keep_alive = false;
  triggers_ignore_source = false;
  triggers = [];
  simulator_confs = 1 ∷ [];
  vehicle_confs = 2 ∷ [];
  from_vehicle = λ n. none;
  controller_confs = 3 ∷ [];
  retry_limit = pos 10;
  patience = 20;
  abort_on_controller_failure = true;
}

abbrev pub fresh : Context (Unit {0})
unfolding initial
fresh = initial small 20_000_000 tt
