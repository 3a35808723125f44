-- ===== src/Engine/Context.antt =====
-- The state that the simulation runs in: engine/src/simulation_context.hpp, with the fields of the
-- state machine (engine/src/utility/state_machine.hpp) and of the server (engine/src/server.cpp)
-- that the states read and write.
use cloe.Prelude.{ℕ, Bool, false, Option, none, List, []}
use cloe.Prelude.Int.{ℤ}
use cloe.Prelude.Int.{ℤ}
use cloe.Engine.Types.{
  StateId, SimulationOutcome, SimulationSync, initial_sync, Result, Kind, Method, Callback,
}

-- A trigger of the stack file: whether its source is transient, and which definition it holds.
pub record TriggerConf : Type 0 where
  pub transient : Bool
  pub definition : ℕ

pub record Config : Type 0 where
  pub probe_simulation : Bool
  pub listen : Bool
  pub keep_alive : Bool
  pub triggers_ignore_source : Bool
  pub triggers : List TriggerConf
  pub simulator_confs : List ℕ
  pub vehicle_confs : List ℕ
  -- The vehicle that a vehicle is made from, if it is not one of a simulator.
  pub from_vehicle : ℕ → Option ℕ
  pub controller_confs : List ℕ
  pub retry_limit : ℤ
  -- Nothing of the source: how many calls are followed of a wait whose retries are not limited.
  pub patience : ℕ
  pub abort_on_controller_failure : Bool

pub data Phase : Type 0 where
  enroll_server inject_signals : Phase

-- What the engine asks of the code outside of the state machine: the plugins behind the model
-- interface, the callbacks, the coordinator, and the phases of `Connect` that hold no model.
pub data Command : Type 0 where
  on_model : Method → Kind → ℕ → Command
  trigger : Callback → Command
  insert_trigger : ℕ → Command
  process_lua_triggers process_triggers refresh_buffer : Command
  pre_connect_hooks post_disconnect_hooks : Command
  phase : Phase → Command

-- What a called function may do to the engine: the trigger actions of
-- engine/src/simulation_actions.hpp, and the eta that a timed trigger announces.
pub data Effect : Type 0 where
  push : StateId → Effect
  keep_alive_on : Effect
  set_realtime_factor : ℤ → Effect
  announce_eta : ℕ → Effect

-- One call out of the engine: its result, its effects in their order, and what it leaves.
pub record Answer (A W : Type 0) : Type 0 where
  pub result : Result A
  pub effects : List Effect
  pub after : W

-- Everything outside of the engine, with a state `W` of its own. Plugins are loaded at run time;
-- `elapsed` is the wall-clock time since the cycle began.
pub record World (W : Type 0) : Type 0 where
  pub command : Command → SimulationSync → W → Answer Unit W
  pub process : Kind → ℕ → SimulationSync → W → Answer ℕ W
  pub operational : Kind → ℕ → W → Bool
  pub has_vehicle : ℕ → W → Bool
  pub elapsed : W → ℕ

-- The calls that the engine has made.
pub data Call : Type 0 where
  commanded : Command → Call
  processed : Kind → ℕ → Call

pub record SimulationResult : Type 0 where
  pub outcome : SimulationOutcome
  pub sync : SimulationSync

-- The maps from names to models are the lists of their keys.
pub record Context (W : Type 0) : Type 0 where
  pub config : Config
  pub sync : SimulationSync
  pub pause_execution : Bool
  pub listening : Bool
  pub simulators : List ℕ
  pub vehicles : List ℕ
  pub controllers : List ℕ
  pub outcome : Option SimulationOutcome
  pub result : Option SimulationResult
  pub probed : Bool
  pub interrupt : Option StateId
  pub prev_state : Option StateId
  pub calls : StateId → ℕ
  pub transitions : StateId → StateId → ℕ
  pub trace : List Call
  pub world : W

-- A new context, before `run`. The server already listens if the configuration says so.
unfoldable pub initial : {W : Type 0} → Config → ℕ → W → Context W
unfolding initial_sync
initial config width w = record {
  config = config;
  sync = initial_sync width;
  pause_execution = false;
  listening = config.listen;
  simulators = [];
  vehicles = [];
  controllers = [];
  outcome = none;
  result = none;
  probed = false;
  interrupt = none;
  prev_state = none;
  calls = λ s. 0;
  transitions = λ s t. 0;
  trace = [];
  world = w;
}
