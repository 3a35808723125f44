-- ===== src/Engine/Types.antt =====
-- The data of the simulation engine: the states of engine/src/simulation_machine.hpp, the outcomes
-- and exit codes of engine/src/simulation_outcome.hpp, the clock of engine/src/simulation_sync.hpp,
-- and the exceptions that the handlers of the engine tell apart.
use cloe.Prelude.{ℕ, ◌+◌, Bool, true, false, Option, none, some, ◌==◌, if◌then◌else◌}
use cloe.Prelude.Int.{ℤ, pos, is_negative}

pub data StateId : Type 0 where
  connect probe start step_begin step_simulators step_controllers step_end pause : StateId
  resume success fail abort stop reset keep_alive disconnect : StateId

pub StateId-discrete : Discrete StateId
StateId-discrete = hlevel

-- Each state has one C string, and states are compared by its address.
abbrev pub state_number : StateId → ℕ
state_number StateId.connect = 0
state_number StateId.probe = 1
state_number StateId.start = 2
state_number StateId.step_begin = 3
state_number StateId.step_simulators = 4
state_number StateId.step_controllers = 5
state_number StateId.step_end = 6
state_number StateId.pause = 7
state_number StateId.resume = 8
state_number StateId.success = 9
state_number StateId.fail = 10
state_number StateId.abort = 11
state_number StateId.stop = 12
state_number StateId.reset = 13
state_number StateId.keep_alive = 14
state_number StateId.disconnect = 15

abbrev pub same_state : StateId → StateId → Bool
same_state a b = state_number a == state_number b

-- A comparison with the previous state, which is the null pointer before the first one has run.
abbrev pub was : Option StateId → StateId → Bool
was none s = false
was (some p) s = same_state p s

pub data SimulationOutcome : Type 0 where
  no_start aborted stopped failure success probing : SimulationOutcome

unfoldable pub as_exit_code : SimulationOutcome → Bool → ℕ
as_exit_code SimulationOutcome.success require_success = 0
as_exit_code SimulationOutcome.stopped require_success = if require_success then 8 else 0
as_exit_code SimulationOutcome.aborted require_success = 16
as_exit_code SimulationOutcome.no_start require_success = 4
as_exit_code SimulationOutcome.failure require_success = 9
as_exit_code SimulationOutcome.probing require_success = 0

-- Durations are counts of nanoseconds. The real-time factor, a double in the program, is counted in
-- thousandths.
pub record SimulationSync : Type 0 where
  pub step : ℕ
  pub time : ℕ
  pub eta : ℕ
  pub cycle_time : ℕ
  pub realtime_factor : ℤ
  pub step_width : ℕ

unfoldable pub initial_sync : ℕ → SimulationSync
initial_sync width = record {
  step = 0;
  time = 0;
  eta = 0;
  cycle_time = 0;
  realtime_factor = pos 1000;
  step_width = width;
}

-- `step_` is a uint64_t; a run takes fewer than 2 ^ 64 steps.
unfoldable pub increment_step : SimulationSync → SimulationSync
increment_step s = record s { step = s.step + 1; time = s.time + s.step_width }

unfoldable pub is_realtime_factor_unlimited : SimulationSync → Bool
is_realtime_factor_unlimited s = is_negative s.realtime_factor

-- The classes that some handler of the engine tells apart. `ModelReset`, `ModelStop` and
-- `ModelAbort` derive from `ModelError`, that and `TriggerError` from `cloe::Error`, and all but
-- `unknown` from `std::exception`; `logic_error` is what a refused interrupt throws.
pub data Exn : Type 0 where
  async_abort model_reset model_stop model_abort model_error : Exn
  trigger_error schema_error cloe_error concluded_error logic_error std_error unknown : Exn

abbrev pub is_model_error : Exn → Bool
is_model_error Exn.model_reset = true
is_model_error Exn.model_stop = true
is_model_error Exn.model_abort = true
is_model_error Exn.model_error = true
is_model_error _ = false

abbrev pub is_cloe_error : Exn → Bool
is_cloe_error Exn.model_reset = true
is_cloe_error Exn.model_stop = true
is_cloe_error Exn.model_abort = true
is_cloe_error Exn.model_error = true
is_cloe_error Exn.trigger_error = true
is_cloe_error Exn.cloe_error = true
is_cloe_error _ = false

abbrev pub is_std_exception : Exn → Bool
is_std_exception Exn.unknown = false
is_std_exception _ = true

-- A call returns, throws, or ends the whole process: a failed assertion, or `std::abort`.
pub data Result {ℓ} (A : Type ℓ) : Type ℓ where
  ok : A → Result A
  throws : Exn → Result A
  terminates : Result A

pub data Kind : Type 0 where
  controller vehicle simulator : Kind

-- The methods of a model that the engine calls for their effect.
pub data Method : Type 0 where
  m_connect m_start m_stop m_reset m_abort m_disconnect : Method

-- The callbacks that the states trigger.
pub data Callback : Type 0 where
  on_loop on_pause on_resume on_start on_stop on_success on_failure on_reset on_time : Callback
