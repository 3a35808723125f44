-- ===== src/Engine/Execution.antt =====
-- The engine as a program to run: `execute` is `simulate` of engine/src/simulation.cpp, and unfolds
-- everything that a run computes.
use cloe.Prelude.{ℕ}
use cloe.Engine.Types.{SimulationOutcome, Result, increment_step, initial_sync}
use cloe.Engine.Context.{Config, Context, World, initial}
use cloe.Engine.Foreach.{
  and_then, foreach, foreach_controller, foreach_model, foreach_simulator, foreach_vehicle,
}
use cloe.Engine.Machine.{
  Progress, simulate, conclude_hooks, count_call, count_transition, handle_interrupt, impl, is_done,
  on_escape, on_exception, pop_interrupt, run_guarded, run_impl, run_machine, run_state, set_pause,
  turn, turn_body,
}
use cloe.Engine.Monad.{
  answer, apply_effect, apply_effects, asserting, command, continue, gets, handle, modify, process,
  pure, push_interrupt, push_onto, raise, recover, swallow, terminate, try_catch, ◌>>=◌,
}
use cloe.Engine.States.Ending.{
  abort_impl, abort_model, disconnect_impl, disconnect_model, fail_impl, keep_alive_impl,
  mark_stopped, pause_impl, reset_impl, reset_model, resume_impl, server_start, server_stop,
  stop_impl, stop_model, success_impl, temporary_server,
}
use cloe.Engine.States.Setup.{
  conclude, configure, configure_all_vehicles, configure_vehicles, report_unresolved,
  resolve_vehicles, connect_impl, connect_rest, contains, decide, give_up_on_model_error,
  insert_triggers, probe_impl, start_impl, start_model,
}
use cloe.Engine.States.Stepping.{
  catch_up, catch_up_unlimited, catch_up_within, on_controller_error, set_cycle_time,
  step_begin_impl, step_controller, step_controllers_impl, step_each, step_end_impl, step_simulator,
  step_simulators_impl, step_vehicle, without,
}

unfoldable pub execute :
    {W : Type 0} → World W → ℕ → Config → ℕ → W → Result (Progress × SimulationOutcome) × Context W
unfolding increment_step initial_sync initial and_then foreach foreach_controller foreach_model
    foreach_simulator foreach_vehicle simulate conclude_hooks count_call count_transition
    handle_interrupt impl is_done on_escape on_exception pop_interrupt run_guarded run_impl
    run_machine run_state set_pause turn turn_body answer apply_effect apply_effects asserting
    command continue gets handle modify process pure push_interrupt push_onto raise recover swallow
    terminate try_catch ◌>>=◌ abort_impl abort_model disconnect_impl disconnect_model fail_impl
    keep_alive_impl mark_stopped pause_impl reset_impl reset_model resume_impl server_start
    server_stop stop_impl stop_model success_impl temporary_server conclude configure
    configure_all_vehicles configure_vehicles report_unresolved resolve_vehicles connect_impl
    connect_rest contains decide give_up_on_model_error insert_triggers probe_impl start_impl
    start_model catch_up catch_up_unlimited catch_up_within on_controller_error set_cycle_time
    step_begin_impl step_controller step_controllers_impl step_each step_end_impl step_simulator
    step_simulators_impl step_vehicle without
execute w fuel config width a = simulate w fuel (initial config width a)
