-- ===== src/Engine/Machine.antt =====
-- The state machine: engine/src/utility/state_machine.hpp and engine/src/simulation_machine.hpp,
-- and the part of engine/src/simulation.cpp that runs it.
pub mod Rule
use cloe.Prelude.{
  ℕ, zero, suc, ◌+◌, Bool, true, false, ◌&&◌, Option, none, some, value_or, if◌then◌else◌,
}
use cloe.Engine.Types.{StateId, SimulationOutcome, same_state, Exn, ok}
use cloe.Engine.Context.{Context, World, pre_connect_hooks, post_disconnect_hooks}
use cloe.Engine.Monad.{Engine, pure, modify, gets, try_catch, push_interrupt, command, ◌>>=◌, ◌>>◌}
use cloe.Engine.States.Setup.{connect_impl, probe_impl, start_impl}
use cloe.Engine.States.Stepping.{
  step_begin_impl, step_simulators_impl, step_controllers_impl, step_end_impl,
}
use cloe.Engine.States.Ending.{
  pause_impl, resume_impl, success_impl, fail_impl, abort_impl, stop_impl, reset_impl,
  keep_alive_impl, disconnect_impl,
}

module _ {W : Type 0} where
  unfoldable pub count_call : StateId → Context W → Context W
  count_call s c = record c { calls = λ t. if same_state t s then c.calls t + 1 else c.calls t }

  unfoldable pub count_transition : StateId → Option StateId → Context W → Context W
  count_transition s none c = c
  count_transition s (some n) c = record c {
    transitions = λ a b.
        if same_state a s && same_state b n then c.transitions a b + 1 else c.transitions a b;
  }

  unfoldable pub pop_interrupt : Context W → Context W
  pop_interrupt c = record c { interrupt = none }

  -- `handle_interrupt`, but for running the state that an interrupt names.
  unfoldable pub set_pause : Bool → Context W → Context W
  set_pause b c = record c { pause_execution = b }

  -- The `catch` blocks of `run_machine`: an interrupt takes the place of the exception.
  unfoldable pub on_exception : Option StateId → Exn → Option (Engine W (Option StateId))
  on_exception id Exn.async_abort = some (push_interrupt StateId.abort >> pure id)
  on_exception id Exn.model_reset = some (push_interrupt StateId.reset >> pure id)
  on_exception id Exn.model_stop = some (push_interrupt StateId.stop >> pure id)
  on_exception id Exn.model_abort = some (push_interrupt StateId.abort >> pure id)
  on_exception id Exn.model_error = some (push_interrupt StateId.abort >> pure id)
  on_exception id e = none

module _ {W : Type 0} (w : World W) where
  unfoldable pub impl : StateId → Engine W (Option StateId)
  impl StateId.connect = connect_impl w
  impl StateId.probe = probe_impl w
  impl StateId.start = start_impl w
  impl StateId.step_begin = step_begin_impl w
  impl StateId.step_simulators = step_simulators_impl w
  impl StateId.step_controllers = step_controllers_impl w
  impl StateId.step_end = step_end_impl w
  impl StateId.pause = pause_impl w
  impl StateId.resume = resume_impl w
  impl StateId.success = success_impl w
  impl StateId.fail = fail_impl w
  impl StateId.abort = abort_impl w
  impl StateId.stop = stop_impl w
  impl StateId.reset = reset_impl w
  impl StateId.keep_alive = keep_alive_impl w
  impl StateId.disconnect = disconnect_impl w

  -- `State::run`.
  unfoldable pub run_impl : StateId → Engine W (Option StateId)
  run_impl s = do modify (count_call s); next ← impl s; modify (count_transition s next); pure next

  -- `StateMachine::run_state`: the previous state is set also behind an exception.
  unfoldable pub run_state : StateId → Engine W (Option StateId)
  run_state s c = let (r, c') = run_impl s c in (r, record c' { prev_state = some s })

  unfoldable pub handle_interrupt : Option StateId → StateId → Engine W (Option StateId)
  handle_interrupt nominal StateId.pause = modify (set_pause true) >> pure nominal
  handle_interrupt nominal StateId.resume = modify (set_pause false) >> pure nominal
  handle_interrupt nominal i = run_state i

  -- The body of the loop's `try`, where the loop has an interrupt or a state to run.
  unfoldable pub turn_body : Option StateId → Option StateId → Engine W (Option StateId)
  turn_body (some i) id = modify pop_interrupt >> handle_interrupt id i
  turn_body none (some s) = run_state s
  turn_body none none = pure none

  -- One turn of the loop in `run_machine`, with its handlers.
  unfoldable pub turn : Option StateId → Engine W (Option StateId)
  turn id c = try_catch (turn_body c.interrupt id) (on_exception id) c

-- Whether the loop has come to its end, or stands before a further turn with this nominal state.
pub data Progress : Type 0 where
  ended : Progress
  running : Option StateId → Progress

module _ {W : Type 0} (w : World W) where
  -- The loop's condition: it goes on while there is an interrupt or a nominal state.
  unfoldable pub is_done : Option StateId → Context W → Bool
  is_done none c = elim c.interrupt [ none ↦ true | some i ↦ false ]
  is_done (some s) c = false

  unfoldable pub run_machine : ℕ → Option StateId → Engine W Progress
  run_machine zero id c = (ok (running id), c)
  run_machine (suc fuel) id c =
      if is_done id c then (ok ended, c) else (turn w id >>= run_machine fuel) c

  -- `SimulationMachine::run` between the hooks.
  unfoldable pub run_guarded : ℕ → Engine W Progress
  run_guarded fuel = do command w pre_connect_hooks; run_machine fuel (some StateId.connect)

  -- `catch` of `Simulation::run`: whatever leaves the machine makes the run an aborted one.
  unfoldable pub on_escape : Exn → Option (Engine W Progress)
  on_escape Exn.unknown = none
  on_escape e =
      some (modify (λ c. record c { outcome = some SimulationOutcome.aborted }) >> pure ended)

  unfoldable pub conclude_hooks : Exn → Option (Engine W Unit)
  conclude_hooks Exn.concluded_error = some (pure tt)
  conclude_hooks e = none

  -- `Simulation::run`, up to the outcome that it reports.
  unfoldable pub simulate : ℕ → Engine W (Progress × SimulationOutcome)
  simulate fuel = do
    progress ← try_catch (run_guarded fuel) on_escape
    try_catch (command w post_disconnect_hooks) conclude_hooks
    outcome ← gets (λ c. value_or c.outcome SimulationOutcome.aborted)
    pure (progress, outcome)
