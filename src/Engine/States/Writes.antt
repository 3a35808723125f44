-- ===== src/Engine/States/Writes.antt =====
-- Which part of the context a state writes by itself, and the rule that follows: an invariant that
-- each of these writes keeps is kept by the state.
pub mod All
use cloe.Prelude.{
  ℕ, zero, suc, length, not, ◌||◌, ◌==◌, Bool, true, false, Option, none, some, List, [], ◌∷◌,
}
use cloe.Prelude.Int.{ℤ, pos, negsuc}
use cloe.Engine.Types.{
  StateId, SimulationOutcome, SimulationSync, increment_step, Exn, Kind, controller, vehicle,
  simulator,
}
use cloe.Engine.Context.{Context, World, TriggerConf, SimulationResult}
use cloe.Engine.Monad.{Engine, terminate}
use cloe.Engine.Keeps.{
  Keeps, HandlerKeeps, passes, catches, IsStable, keeps_rules, Keeps-pure, Keeps-raise, Keeps-gets,
  Keeps-if, Keeps-bind, Keeps-modify, Keeps-asserting, Keeps-try_catch, Keeps-command,
  Keeps-process, Keeps-push_interrupt, Keeps-foreach_model, Keeps-foreach_simulator,
  Keeps-foreach_vehicle, HandlerKeeps-swallow,
}
use cloe.Engine.States.Setup.{
  configure, configure_all_vehicles, configure_vehicles, report_unresolved, resolve_vehicles,
  contains, is_ready, connect_impl, give_up_on_model_error, conclude, added, probe_impl,
  insert_triggers, start_impl,
}
use cloe.Engine.States.Stepping.{
  step_begin_impl, step_simulator, step_vehicle, step_simulators_impl, catch_up, catch_up_unlimited,
  catch_up_within, on_controller_error, step_controller, step_each, step_controllers_impl,
  set_cycle_time, step_end_impl, go_on, drop, halt,
}
use cloe.Engine.States.Setup.{decide}
use cloe.Engine.States.Ending.{
  mark_stopped, server_start, server_stop, temporary_server, pause_impl, resume_impl, success_impl,
  fail_impl, stop_model, stop_impl, reset_model, reset_impl, abort_model, abort_impl,
  keep_alive_impl, disconnect_model, disconnect_impl,
}

-- The outcomes that a state decides on; `stop` marks only what is undecided.
pub data Decides : StateId → SimulationOutcome → Type 0 where
  no_start_by_connect : Decides StateId.connect SimulationOutcome.no_start
  no_start_by_abort : Decides StateId.abort SimulationOutcome.no_start
  probing_by_probe : Decides StateId.probe SimulationOutcome.probing
  success_by_success : Decides StateId.success SimulationOutcome.success
  failure_by_fail : Decides StateId.fail SimulationOutcome.failure
  aborted_by_abort : Decides StateId.abort SimulationOutcome.aborted

-- `P` outlives everything that the state `s` writes.
pub record Writes {W : Type 0} (s : StateId) (P : Context W → Type 0) : Type 0 where
  pub outcomes :
      (c : Context W) (o : SimulationOutcome)
      → Decides s o
      → P c
      → P (record c { outcome = some o })
  pub stopping : Keeps P mark_stopped
  pub models_in : (c : Context W) (k : Kind) (n : ℕ) → P c → P (added k n c)
  pub controllers_in : (c : Context W) (ns : List ℕ) → P c → P (record c { controllers = ns })
  pub probes : (c : Context W) → P c → P (record c { probed = true })
  pub listens : (c : Context W) (b : Bool) → P c → P (record c { listening = b })
  pub cycles :
      (c : Context W) (t : ℕ) → P c → P (record c { sync = record c.sync { cycle_time = t } })
  pub steps : (c : Context W) → P c → P (record c { sync = increment_step c.sync })
  pub results : (c : Context W) (r : SimulationResult) → P c → P (record c { result = some r })

module _ {W : Type 0} {P : Context W → Type 0} (w : World W) (stable : IsStable P) where
  pub HandlerKeeps-give_up : (e : Exn) → HandlerKeeps P (give_up_on_model_error e)
  unfolding give_up_on_model_error
  HandlerKeeps-give_up Exn.model_reset = catches (Keeps-pure false)
  HandlerKeeps-give_up Exn.model_stop = catches (Keeps-pure false)
  HandlerKeeps-give_up Exn.model_abort = catches (Keeps-pure false)
  HandlerKeeps-give_up Exn.model_error = catches (Keeps-pure false)
  HandlerKeeps-give_up _ = passes

  pub HandlerKeeps-conclude : (e : Exn) → HandlerKeeps P (conclude e)
  unfolding conclude
  HandlerKeeps-conclude Exn.schema_error = catches (Keeps-raise _)
  HandlerKeeps-conclude Exn.trigger_error = catches (Keeps-raise _)
  HandlerKeeps-conclude _ = passes

  pub insert_triggers-Keeps : (b : Bool) (ts : List TriggerConf) → Keeps P (insert_triggers w b ts)
  unfolding insert_triggers
  insert_triggers-Keeps b [] = Keeps-pure tt
  insert_triggers-Keeps b (t ∷ ts) = Keeps-if _ _ _ (insert_triggers-Keeps b ts) (
      Keeps-bind _ _ (Keeps-try_catch _ _ (Keeps-command stable w _) HandlerKeeps-conclude)
        λ _. insert_triggers-Keeps b ts)

  catch_up-Keeps : (left n : ℕ) → Keeps P (catch_up w left n)
  unfolding catch_up
  catch_up-Keeps zero n = search (keeps_rules, stable)
  catch_up-Keeps (suc left) n =
      Keeps-bind _ _ (Keeps-process stable w _ n) λ r.
        Keeps-bind _ _ (Keeps-gets _) λ t. Keeps-if _ _ _ (catch_up-Keeps left n) (Keeps-pure r)

  catch_up_unlimited-Keeps : (fuel n : ℕ) → Keeps P (catch_up_unlimited w fuel n)
  unfolding catch_up_unlimited terminate
  catch_up_unlimited-Keeps zero n = record { at = λ c p. p }
  catch_up_unlimited-Keeps (suc fuel) n = Keeps-bind _ _ (Keeps-process stable w _ n) λ r.
      Keeps-bind _ _ (Keeps-gets _)
        λ t. Keeps-if _ _ _ (catch_up_unlimited-Keeps fuel n) (Keeps-pure r)

  pub catch_up_within-Keeps :
      (limit : ℤ) (patience n : ℕ) → Keeps P (catch_up_within w limit patience n)
  unfolding catch_up_within
  catch_up_within-Keeps (pos left) patience n = catch_up-Keeps left n
  catch_up_within-Keeps (negsuc _) patience n = catch_up_unlimited-Keeps patience n

module _ {W : Type 0} {P : Context W → Type 0} (w : World W) (stable : IsStable P) {s : StateId}
    (writes : Writes s P) where
  pub configure-Keeps : (k : Kind) (ns : List ℕ) → Keeps P (configure w k ns)
  unfolding configure
  configure-Keeps k [] = Keeps-pure true
  configure-Keeps k (n ∷ ns) = Keeps-bind _ _ (Keeps-gets _) λ there. Keeps-asserting _ _ (
      Keeps-bind _ _
        (Keeps-try_catch _ _
          (Keeps-bind _ _ (Keeps-command stable w _)
            λ _. Keeps-bind _ _ (Keeps-modify _ (λ c. writes.models_in c k n)) λ _. Keeps-pure true)
          (HandlerKeeps-give_up w stable))
        λ made. Keeps-if made _ _ (configure-Keeps k ns) (Keeps-pure false))

  configure_vehicles-Keeps : (ns : List ℕ) → Keeps P (configure_vehicles w ns)
  unfolding configure_vehicles
  configure_vehicles-Keeps [] = Keeps-pure true
  configure_vehicles-Keeps (n ∷ ns) = Keeps-bind _ _ (Keeps-gets _) λ vs.
      Keeps-bind _ _ (Keeps-gets _) λ source.
        Keeps-if (contains vs n || not (is_ready source vs)) _ _ (configure_vehicles-Keeps ns) (
          Keeps-bind _ _
            (Keeps-try_catch _ _
              (Keeps-bind _ _ (Keeps-command stable w _) λ _.
                Keeps-bind _ _ (Keeps-modify _ (λ c. writes.models_in c vehicle n))
                  λ _. Keeps-pure true)
              (HandlerKeeps-give_up w stable))
            λ made. Keeps-if made _ _ (configure_vehicles-Keeps ns) (Keeps-pure false))

  report_unresolved-Keeps :
      (ns : List ℕ) (again : Engine W Bool) → Keeps P again → Keeps P (report_unresolved w ns again)
  unfolding report_unresolved
  report_unresolved-Keeps [] again k = k
  report_unresolved-Keeps (n ∷ ns) again k = Keeps-bind _ _ (Keeps-gets _) λ vs.
      Keeps-bind _ _ (Keeps-gets _) λ source.
        Keeps-if (contains vs n) _ _ (report_unresolved-Keeps ns again k)
          (Keeps-asserting _ _ (Keeps-raise _))

  resolve_vehicles-Keeps : (fuel : ℕ) (ns : List ℕ) → Keeps P (resolve_vehicles w fuel ns)
  unfolding resolve_vehicles terminate
  resolve_vehicles-Keeps zero ns = record { at = λ c p. p }
  resolve_vehicles-Keeps (suc fuel) ns = Keeps-bind _ _ (Keeps-gets _) λ before.
      Keeps-if (before == length ns) _ _ (Keeps-pure true) (
        Keeps-bind _ _ (configure_vehicles-Keeps ns) λ made. Keeps-bind _ _ (Keeps-gets _) λ after.
          Keeps-if (not made) _ _ (Keeps-pure false) (
            Keeps-if (after == before) _ _
              (report_unresolved-Keeps ns _ (resolve_vehicles-Keeps fuel ns))
              (resolve_vehicles-Keeps fuel ns)))

  pub configure_all_vehicles-Keeps : (ns : List ℕ) → Keeps P (configure_all_vehicles w ns)
  unfolding configure_all_vehicles
  configure_all_vehicles-Keeps ns = resolve_vehicles-Keeps (suc (length ns)) ns

  pub decide-Keeps : (o : SimulationOutcome) → Decides s o → Keeps P (decide o)
  unfolding decide
  decide-Keeps o d = Keeps-modify _ (λ c. writes.outcomes c o d)

  pub server_start-Keeps : Keeps P server_start
  unfolding server_start
  server_start-Keeps =
      Keeps-bind _ _ (Keeps-gets _)
        λ b. Keeps-asserting _ _ (Keeps-modify _ (λ c. writes.listens c true))

  pub server_stop-Keeps : Keeps P server_stop
  unfolding server_stop
  server_stop-Keeps = Keeps-modify _ (λ c. writes.listens c false)

  pub temporary_server-Keeps : Keeps P temporary_server
  unfolding temporary_server
  temporary_server-Keeps = search (keeps_rules, server_start-Keeps) depth 8

  pub step_simulator-Keeps : (n : ℕ) → Keeps P (step_simulator w n)
  unfolding step_simulator
  step_simulator-Keeps n = search (keeps_rules, stable) depth 8

  pub step_vehicle-Keeps : (n : ℕ) → Keeps P (step_vehicle w n)
  unfolding step_vehicle
  step_vehicle-Keeps n = search (keeps_rules, stable)

  pub pause_impl-Keeps : Keeps P (pause_impl w)
  unfolding pause_impl
  pause_impl-Keeps = search (keeps_rules, stable, temporary_server-Keeps) depth 12

  pub resume_impl-Keeps : Keeps P (resume_impl w)
  unfolding resume_impl
  resume_impl-Keeps = search (keeps_rules, stable, server_stop-Keeps) depth 12

  pub stop_model-Keeps : (k : Kind) (n : ℕ) → Keeps P (stop_model w k n)
  unfolding stop_model
  stop_model-Keeps k n = search (keeps_rules, stable) depth 12

  pub mark_stopped-Keeps : Keeps P mark_stopped
  mark_stopped-Keeps = writes.stopping

  pub stop_impl-Keeps : Keeps P (stop_impl w)
  unfolding stop_impl
  stop_impl-Keeps = search (keeps_rules, stable, mark_stopped-Keeps, stop_model-Keeps) depth 12

  pub reset_model-Keeps : (k : Kind) (n : ℕ) → Keeps P (reset_model w k n)
  unfolding reset_model
  reset_model-Keeps k n = search (keeps_rules, stable) depth 12

  pub reset_impl-Keeps : Keeps P (reset_impl w)
  unfolding reset_impl
  reset_impl-Keeps = search (keeps_rules, stable, reset_model-Keeps) depth 12

  pub abort_model-Keeps : (k : Kind) (n : ℕ) → Keeps P (abort_model w k n)
  unfolding abort_model
  abort_model-Keeps k n = search (keeps_rules, stable) depth 12

  pub keep_alive_impl-Keeps : Keeps P (keep_alive_impl w)
  unfolding keep_alive_impl
  keep_alive_impl-Keeps = search (keeps_rules, stable) depth 12

  pub step_begin_impl-Keeps : Keeps P (step_begin_impl w)
  unfolding step_begin_impl
  step_begin_impl-Keeps = search (keeps_rules, stable) depth 12

  pub step_simulators_impl-Keeps : Keeps P (step_simulators_impl w)
  unfolding step_simulators_impl
  step_simulators_impl-Keeps =
      search (keeps_rules, step_simulator-Keeps, step_vehicle-Keeps) depth 12
