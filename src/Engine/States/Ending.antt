-- ===== src/Engine/States/Ending.antt =====
-- The states beside and after the simulation loop: simulation_state_pause.cpp, …_resume.cpp,
-- …_success.cpp, …_fail.cpp, …_stop.cpp, …_reset.cpp, …_abort.cpp, …_keep_alive.cpp and
-- …_disconnect.cpp.
use cloe.Prelude.{ℕ, Bool, true, false, not, Option, none, some, is_some, value_or, if◌then◌else◌}
use cloe.Engine.Types.{
  StateId, SimulationOutcome, was, Kind, m_stop, m_reset, m_abort, m_disconnect, on_loop, on_pause,
  on_resume, on_success, on_failure, on_stop, on_reset,
}
use cloe.Engine.Context.{World, on_model, trigger, process_triggers}
use cloe.Engine.Monad.{
  Engine, pure, asserting, try_catch, swallow, modify, gets, command, ◌>>=◌, ◌>>◌,
}
use cloe.Engine.Foreach.{foreach_model}
use cloe.Engine.States.Setup.{decide}

-- If no other outcome has been defined, the simulation counts as stopped.
unfoldable pub mark_stopped : {W : Type 0} → Engine W Unit
mark_stopped = do
  decided ← gets (λ c. is_some c.outcome)
  if decided then pure tt else decide SimulationOutcome.stopped

-- `Server::start` asserts that the server does not listen yet, and `Server::stop` asks.
unfoldable pub server_start : {W : Type 0} → Engine W Unit
server_start = do
  listening ← gets (λ c. c.listening)
  asserting (not listening) (modify λ c. record c { listening = true })

unfoldable pub server_stop : {W : Type 0} → Engine W Unit
server_stop = modify λ c. record c { listening = false }

-- The server is started for the time of a pause if the configuration has none.
unfoldable pub temporary_server : {W : Type 0} → Engine W Unit
temporary_server = do
  prev ← gets (λ c. c.prev_state)
  listen ← gets (λ c. c.config.listen)
  if was prev StateId.pause then pure tt else if listen then pure tt else server_start

module _ {W : Type 0} (w : World W) where
  unfoldable pub pause_impl : Engine W (Option StateId)
  pause_impl = do
    temporary_server
    command w process_triggers
    command w (trigger on_loop)
    command w (trigger on_pause)
    pausing ← gets (λ c. c.pause_execution)
    pure (some (if pausing then StateId.pause else StateId.resume))

  unfoldable pub resume_impl : Engine W (Option StateId)
  resume_impl = do
    listen ← gets (λ c. c.config.listen)
    if listen then pure tt else server_stop
    command w (trigger on_resume)
    pure (some StateId.step_begin)

  unfoldable pub success_impl : Engine W (Option StateId)
  success_impl = do
    decide SimulationOutcome.success
    command w (trigger on_success)
    pure (some StateId.stop)

  unfoldable pub fail_impl : Engine W (Option StateId)
  fail_impl = do
    decide SimulationOutcome.failure
    command w (trigger on_failure)
    pure (some StateId.stop)

  unfoldable pub stop_model : Kind → ℕ → Engine W Bool
  stop_model k n =
      try_catch
        (do
          running ← gets (λ c. w.operational k n c.world)
          if running then command w (on_model m_stop k n) else pure tt
          pure true)
        (swallow true)

  unfoldable pub stop_impl : Engine W (Option StateId)
  stop_impl = do
    mark_stopped
    command w (trigger on_stop)
    foreach_model stop_model
    alive ← gets (λ c. c.config.keep_alive)
    pure (some (if alive then StateId.keep_alive else StateId.disconnect))

  unfoldable pub reset_model : Kind → ℕ → Engine W Bool
  reset_model k n =
      try_catch (do command w (on_model m_stop k n); command w (on_model m_reset k n); pure true)
        (swallow false)

  unfoldable pub reset_impl : Engine W (Option StateId)
  reset_impl = do
    command w (trigger on_reset)
    done ← foreach_model reset_model
    pure (some (if done then StateId.connect else StateId.abort))

  unfoldable pub abort_model : Kind → ℕ → Engine W Bool
  abort_model k n = try_catch (command w (on_model m_abort k n) >> pure true) (swallow true)

  unfoldable pub abort_impl : Engine W (Option StateId)
  abort_impl = do
    prev ← gets (λ c. c.prev_state)
    if was prev StateId.keep_alive
        then pure (some StateId.disconnect)
        else if was prev StateId.connect
        then decide SimulationOutcome.no_start >> pure (some StateId.disconnect)
        else decide SimulationOutcome.aborted
          >> foreach_model abort_model
          >> pure (some StateId.disconnect)

  unfoldable pub keep_alive_impl : Engine W (Option StateId)
  keep_alive_impl = do command w (trigger on_pause); pure (some StateId.keep_alive)

  unfoldable pub disconnect_model : Kind → ℕ → Engine W Bool
  disconnect_model k n = do command w (on_model m_disconnect k n); pure true

  unfoldable pub disconnect_impl : Engine W (Option StateId)
  disconnect_impl = do
    foreach_model disconnect_model
    modify λ c. record c {
      result =
          some (record { outcome = value_or c.outcome SimulationOutcome.aborted; sync = c.sync });
    }
    pure none
