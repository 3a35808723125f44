-- ===== src/Engine/States/Stepping.antt =====
-- The states of the simulation loop: simulation_state_step_begin.cpp, …_step_simulators.cpp,
-- …_step_controllers.cpp and …_step_end.cpp. Statistics, logging and sleeping are left out.
use cloe.Prelude.{
  ℕ, zero, suc, Bool, true, not, Option, none, some, List, [], ◌∷◌, ◌++◌, ltb, ◌==◌, if◌then◌else◌,
}
use cloe.Prelude.Int.{ℤ, pos, negsuc}
use cloe.Engine.Types.{
  StateId, increment_step, Exn, is_cloe_error, controller, vehicle, simulator, m_abort,
  m_disconnect, on_loop, on_time,
}
use cloe.Engine.Context.{Context, World, on_model, trigger, process_triggers, refresh_buffer}
use cloe.Engine.Monad.{
  Engine, pure, raise, terminate, try_catch, modify, gets, push_interrupt, command, process, ◌>>=◌,
  ◌>>◌,
}
use cloe.Engine.Foreach.{foreach_model, foreach_simulator, foreach_vehicle}
use cloe.Engine.States.Setup.{contains}

-- What becomes of the loop over the controllers after one of them: the next one, the next one
-- without this one, or the end of the loop.
pub data Turn : Type 0 where
  go_on drop halt : Turn

unfoldable pub without : List ℕ → List ℕ → List ℕ
without gone [] = []
without gone (x ∷ xs) = if contains gone x then without gone xs else x ∷ without gone xs

module _ {W : Type 0} (w : World W) where
  unfoldable pub step_begin_impl : Engine W (Option StateId)
  step_begin_impl = do
    command w refresh_buffer
    command w (trigger on_loop)
    command w (trigger on_time)
    all_operational ← foreach_model λ k n. gets λ c. w.operational k n c.world
    pure (some (if all_operational then StateId.step_simulators else StateId.stop))

  unfoldable pub step_simulator : ℕ → Engine W Bool
  step_simulator n = do
    reached ← process w simulator n
    running ← gets (λ c. w.operational simulator n c.world)
    target ← gets (λ c. c.sync.time)
    if not running
        then raise Exn.model_stop
        else if reached == target
        then pure true
        else raise Exn.model_error

  -- A vehicle that is late is only reported.
  unfoldable pub step_vehicle : ℕ → Engine W Bool
  step_vehicle n = do process w vehicle n; pure true

  unfoldable pub step_simulators_impl : Engine W (Option StateId)
  step_simulators_impl = do
    foreach_simulator step_simulator
    foreach_vehicle step_vehicle
    pure (some StateId.step_controllers)

  -- Keep calling the controller until it has caught up with the time, if the limit is no less than
  -- 0. The count is that of the retries left, `controller_retry_limit - retries`.
  unfoldable pub catch_up : ℕ → ℕ → Engine W ℕ
  catch_up zero n = do
    reached ← process w controller n
    target ← gets (λ c. c.sync.time)
    if ltb reached target then raise Exn.model_error else pure reached
  catch_up (suc left) n = do
    reached ← process w controller n
    target ← gets (λ c. c.sync.time)
    if ltb reached target then catch_up left n else pure reached

  -- The same loop if the limit is negative, which `retries` never is: it need not end, and it is
  -- followed for as many calls as there is fuel, as a process is that is ended from outside.
  unfoldable pub catch_up_unlimited : ℕ → ℕ → Engine W ℕ
  catch_up_unlimited zero n = terminate
  catch_up_unlimited (suc fuel) n = do
    reached ← process w controller n
    target ← gets (λ c. c.sync.time)
    if ltb reached target then catch_up_unlimited fuel n else pure reached

  unfoldable pub catch_up_within : ℤ → ℕ → ℕ → Engine W ℕ
  catch_up_within (pos left) patience n = catch_up left n
  catch_up_within (negsuc _) patience n = catch_up_unlimited patience n

  -- The handlers behind the loop. `catch (...)` rethrows.
  unfoldable pub on_controller_error : ℕ → Exn → Option (Engine W Turn)
  on_controller_error n Exn.model_reset = some (do push_interrupt StateId.reset; pure halt)
  on_controller_error n Exn.model_stop = some (do push_interrupt StateId.stop; pure halt)
  on_controller_error n Exn.model_abort = some (do push_interrupt StateId.abort; pure halt)
  on_controller_error n e =
      if is_cloe_error e
      then some (do
        fatal ← gets (λ c. c.config.abort_on_controller_failure)
        if fatal then push_interrupt StateId.abort >> pure halt else do
          command w (on_model m_abort controller n)
          command w (on_model m_disconnect controller n)
          pure drop)
      else none

  unfoldable pub step_controller : ℕ → Engine W Turn
  step_controller n = do
    steering ← gets (λ c. w.has_vehicle n c.world)
    if not steering then pure go_on else do
      limit ← gets (λ c. c.config.retry_limit)
      patience ← gets (λ c. c.config.patience)
      try_catch (catch_up_within limit patience n >> pure go_on) (on_controller_error n)

  -- The loop; its result is `controllers_to_erase`.
  unfoldable pub step_each : List ℕ → List ℕ → Engine W (List ℕ)
  step_each [] gone = pure gone
  step_each (n ∷ ns) gone = do
    turn ← step_controller n
    elim turn [
      | go_on ↦ step_each ns gone
      | drop ↦ step_each ns (gone ++ n ∷ [])
      | halt ↦ pure gone
    ]

  unfoldable pub step_controllers_impl : Engine W (Option StateId)
  step_controllers_impl = do
    names ← gets (λ c. c.controllers)
    gone ← step_each names []
    modify (λ c. record c { controllers = without gone c.controllers })
    pure (some StateId.step_end)

  unfoldable pub set_cycle_time : Context W → Context W
  set_cycle_time c = record c { sync = record c.sync { cycle_time = w.elapsed c.world } }

  unfoldable pub step_end_impl : Engine W (Option StateId)
  step_end_impl = do
    modify set_cycle_time
    modify (λ c. record c { sync = increment_step c.sync })
    command w process_triggers
    pausing ← gets (λ c. c.pause_execution)
    pure (some (if pausing then StateId.pause else StateId.step_begin))
