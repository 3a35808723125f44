-- ===== src/Engine/States/Writes/All.antt =====
-- The rule of the parent for every state.
use cloe.Prelude.{ℕ, none, List, [], ◌∷◌}
use cloe.Engine.Types.{StateId, SimulationOutcome, Exn, Kind, increment_step}
use cloe.Engine.Context.{Context, World}
use cloe.Engine.Monad.{modify}
use cloe.Engine.Keeps.{
  Keeps, HandlerKeeps, passes, catches, IsStable, keeps_rules, Keeps-pure, Keeps-gets, Keeps-if,
  Keeps-bind, Keeps-modify, Keeps-foreach_model,
}
use cloe.Engine.States.Setup.{
  decide, connect_rest, connect_impl, probe_impl, start_model, start_impl,
}
use cloe.Engine.States.Stepping.{
  go_on, drop, halt, on_controller_error, step_controller, step_each, step_controllers_impl,
  set_cycle_time, step_end_impl,
}
use cloe.Engine.States.Ending.{
  success_impl, fail_impl, abort_impl, disconnect_model, disconnect_impl,
}
use cloe.Engine.States.Writes.{
  Writes, Decides, no_start_by_connect, no_start_by_abort, probing_by_probe, success_by_success,
  failure_by_fail, aborted_by_abort, configure-Keeps, configure_all_vehicles-Keeps, decide-Keeps,
  insert_triggers-Keeps, catch_up_within-Keeps, pause_impl-Keeps, resume_impl-Keeps,
  stop_impl-Keeps, reset_impl-Keeps, abort_model-Keeps, keep_alive_impl-Keeps,
  step_begin_impl-Keeps, step_simulators_impl-Keeps,
}
use cloe.Engine.Machine.{impl}

module _ {W : Type 0} {P : Context W → Type 0} (w : World W) (stable : IsStable P) where
  HandlerKeeps-on_controller_error : (n : ℕ) (e : Exn) → HandlerKeeps P (on_controller_error w n e)
  unfolding on_controller_error
  HandlerKeeps-on_controller_error n Exn.model_reset = search (keeps_rules, stable)
  HandlerKeeps-on_controller_error n Exn.model_stop = search (keeps_rules, stable)
  HandlerKeeps-on_controller_error n Exn.model_abort = search (keeps_rules, stable)
  HandlerKeeps-on_controller_error n Exn.async_abort = passes
  HandlerKeeps-on_controller_error n Exn.schema_error = passes
  HandlerKeeps-on_controller_error n Exn.concluded_error = passes
  HandlerKeeps-on_controller_error n Exn.logic_error = passes
  HandlerKeeps-on_controller_error n Exn.std_error = passes
  HandlerKeeps-on_controller_error n Exn.unknown = passes
  HandlerKeeps-on_controller_error n _ = catches (search (keeps_rules, stable) depth 12)

  step_controller-Keeps : (n : ℕ) → Keeps P (step_controller w n)
  unfolding step_controller
  step_controller-Keeps n =
      search (keeps_rules, catch_up_within-Keeps w stable, HandlerKeeps-on_controller_error) depth
        12

  step_each-Keeps : (ns gone : List ℕ) → Keeps P (step_each w ns gone)
  unfolding step_each
  step_each-Keeps [] gone = Keeps-pure gone
  step_each-Keeps (n ∷ ns) gone = Keeps-bind _ _ (step_controller-Keeps n) (elim [
    | go_on ↦ step_each-Keeps ns gone
    | drop ↦ step_each-Keeps ns _
    | halt ↦ Keeps-pure gone
  ])

module _ {W : Type 0} {P : Context W → Type 0} (w : World W) (stable : IsStable P) {s : StateId}
    (writes : Writes s P) where
  step_controllers_impl-Keeps : Keeps P (step_controllers_impl w)
  unfolding step_controllers_impl
  step_controllers_impl-Keeps = Keeps-bind _ _ (Keeps-gets _) λ names.
      Keeps-bind _ _ (step_each-Keeps w stable names [])
        λ gone. Keeps-bind _ _ (Keeps-modify _ (λ c. writes.controllers_in c _)) λ _. Keeps-pure _

  step_end_impl-Keeps : Keeps P (step_end_impl w)
  unfolding step_end_impl set_cycle_time
  step_end_impl-Keeps =
      Keeps-bind _ _ (Keeps-modify _ (λ c. writes.cycles c _))
        λ _. Keeps-bind _ _ (Keeps-modify _ writes.steps) λ _. search (keeps_rules, stable) depth 8

  start_model-Keeps : (k : Kind) (n : ℕ) → Keeps P (start_model w k n)
  unfolding start_model
  start_model-Keeps k n = search (keeps_rules, stable)

  stepping-Keeps : Keeps P (modify (λ c. record c { sync = increment_step c.sync }))
  stepping-Keeps = Keeps-modify _ writes.steps

  start_impl-Keeps : Keeps P (start_impl w)
  unfolding start_impl
  start_impl-Keeps =
      search
        (keeps_rules, stable, insert_triggers-Keeps w stable, start_model-Keeps, stepping-Keeps)
        depth 16

  probe_impl-Keeps : Decides s SimulationOutcome.probing → Keeps P (probe_impl w)
  unfolding probe_impl decide
  probe_impl-Keeps d =
      Keeps-bind _ _ (decide-Keeps w stable writes _ d)
        λ _. Keeps-bind _ _ (Keeps-modify _ writes.probes) λ _. Keeps-pure _

  pub connect_rest-Keeps : Keeps P (connect_rest w)
  unfolding connect_rest
  connect_rest-Keeps =
      search
        (
          keeps_rules,
          stable,
          configure-Keeps w stable writes,
          configure_all_vehicles-Keeps w stable writes,
        )
        depth 24

  connect_impl-Keeps : Decides s SimulationOutcome.no_start → Keeps P (connect_impl w)
  unfolding connect_impl
  connect_impl-Keeps d = Keeps-bind _ _ (decide-Keeps w stable writes _ d) λ _. connect_rest-Keeps

  success_impl-Keeps : Decides s SimulationOutcome.success → Keeps P (success_impl w)
  unfolding success_impl
  success_impl-Keeps d =
      Keeps-bind _ _ (decide-Keeps w stable writes _ d) λ _. search (keeps_rules, stable)

  fail_impl-Keeps : Decides s SimulationOutcome.failure → Keeps P (fail_impl w)
  unfolding fail_impl
  fail_impl-Keeps d =
      Keeps-bind _ _ (decide-Keeps w stable writes _ d) λ _. search (keeps_rules, stable)

  abort_impl-Keeps :
      Decides s SimulationOutcome.no_start
      → Decides s SimulationOutcome.aborted
      → Keeps P (abort_impl w)
  unfolding abort_impl
  abort_impl-Keeps d e = Keeps-bind _ _ (Keeps-gets _) λ prev. Keeps-if _ _ _ (Keeps-pure _) (
      Keeps-if _ _ _ (Keeps-bind _ _ (decide-Keeps w stable writes _ d) λ _. Keeps-pure _) (
        Keeps-bind _ _
          (Keeps-bind _ _ (decide-Keeps w stable writes _ e)
            λ _. Keeps-foreach_model _ (abort_model-Keeps w stable writes))
          λ _. Keeps-pure _))

  disconnect_model-Keeps : (k : Kind) (n : ℕ) → Keeps P (disconnect_model w k n)
  unfolding disconnect_model
  disconnect_model-Keeps k n = search (keeps_rules, stable)

  disconnect_impl-Keeps : Keeps P (disconnect_impl w)
  unfolding disconnect_impl
  disconnect_impl-Keeps =
      Keeps-bind _ _ (Keeps-foreach_model _ disconnect_model-Keeps)
        λ _. Keeps-bind _ _ (Keeps-modify _ (λ c. writes.results c _)) λ _. Keeps-pure none

module _ {W : Type 0} {P : Context W → Type 0} (w : World W) (stable : IsStable P) where
  -- What a state writes is all that an invariant has to be checked against.
  pub impl-Keeps : (s : StateId) → Writes s P → Keeps P (impl w s)
  unfolding impl
  impl-Keeps StateId.pause writes = pause_impl-Keeps w stable writes
  impl-Keeps StateId.resume writes = resume_impl-Keeps w stable writes
  impl-Keeps StateId.stop writes = stop_impl-Keeps w stable writes
  impl-Keeps StateId.reset writes = reset_impl-Keeps w stable writes
  impl-Keeps StateId.keep_alive writes = keep_alive_impl-Keeps w stable writes
  impl-Keeps StateId.step_begin writes = step_begin_impl-Keeps w stable writes
  impl-Keeps StateId.step_simulators writes = step_simulators_impl-Keeps w stable writes
  impl-Keeps StateId.step_controllers writes = step_controllers_impl-Keeps w stable writes
  impl-Keeps StateId.step_end writes = step_end_impl-Keeps w stable writes
  impl-Keeps StateId.start writes = start_impl-Keeps w stable writes
  impl-Keeps StateId.disconnect writes = disconnect_impl-Keeps w stable writes
  impl-Keeps StateId.probe writes = probe_impl-Keeps w stable writes probing_by_probe
  impl-Keeps StateId.connect writes = connect_impl-Keeps w stable writes no_start_by_connect
  impl-Keeps StateId.success writes = success_impl-Keeps w stable writes success_by_success
  impl-Keeps StateId.fail writes = fail_impl-Keeps w stable writes failure_by_fail
  impl-Keeps StateId.abort writes =
      abort_impl-Keeps w stable writes no_start_by_abort aborted_by_abort
