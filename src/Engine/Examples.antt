-- ===== src/Engine/Examples.antt =====
-- Examples of the properties of the engine, in the sample worlds.
use cloe.Prelude.{Option, is_some, true, ◌≤◌, ◌≢◌, some, length, ℕ, ◌⊎◌}
use cloe.Engine.Types.{StateId, SimulationOutcome}
use cloe.Engine.Context.{initial}
use cloe.Engine.Machine.{run_machine}
use cloe.Engine.Clock.{ClockIs, run_machine-ClockIs}
use cloe.Engine.Outcome.{run_machine-ne-stopped}
use cloe.Prelude.{◌≡◌, refl, none, [], ◌∷◌}
use cloe.Engine.Types.{Exn, ok, throws, terminates}
use cloe.Engine.Decision.{Justified, run_machine-Justified}
use cloe.Engine.Graph.{Edge, impl-Leads}
use cloe.Engine.States.Stepping.{catch_up}
use cloe.Engine.CatchUp.{catch_up-answers}
use cloe.Engine.Ended.{run_machine-result}
use cloe.Prelude.{String, Bool, false, str_eq, eq_iff, arith}
use cloe.Engine.Components.{
  ComponentConf, Configured, complete, out_of_fuel, resolve_components, make_pass, report_missing,
  missing, set_component, count_key, count_done,
}
use cloe.Engine.Components.Termination.{resolve_components-ends}
use cloe.Engine.Watchdog.{
  WatchdogConf, WatchdogMode, FutureStatus, finished, run_state_async, run_state_async-ready,
  timeout_of, times_out,
}
use cloe.Engine.Registrar.{Registrar, make_prefix, make_trigger_name}
use cloe.Prelude.Texts.{eq_text}
use cloe.Engine.Execution.{execute}
use cloe.Engine.Samples.{calm, small}

run_machine-ClockIs_example :
    ClockIs 20 (run_machine calm 30 (some StateId.connect) (initial small 20 tt)).1.sync
run_machine-ClockIs_example = run_machine-ClockIs calm small 20 tt 30

run_machine-ne-stopped_example :
    (run_machine calm 30 (some StateId.connect) (initial small 20 tt)).1.outcome
    ≢ some SimulationOutcome.stopped
run_machine-ne-stopped_example = run_machine-ne-stopped calm small 20 tt 30

run_machine-Justified_example :
    Justified
      (run_machine calm 30 (some StateId.connect) (initial small 20 tt)).1.calls
      SimulationOutcome.no_start
unfolding execute
run_machine-Justified_example =
    run_machine-Justified calm small 20 tt 30 SimulationOutcome.no_start refl

impl-Leads_example : Edge StateId.step_end StateId.step_begin
unfolding execute
impl-Leads_example =
    impl-Leads calm StateId.step_end (initial small 20 tt) (some StateId.step_begin) refl

catch_up-answers_example :
    (length (catch_up calm 10 3 (initial small 20 tt)).1.trace ≤ 11)
    × (((t : ℕ) × ((catch_up calm 10 3 (initial small 20 tt)).0 ≡ ok t)
          × ((catch_up calm 10 3 (initial small 20 tt)).1.sync.time ≤ t))
        ⊎ (((e : Exn) × ((catch_up calm 10 3 (initial small 20 tt)).0 ≡ throws e))
            ⊎ ((catch_up calm 10 3 (initial small 20 tt)).0 ≡ terminates)))
unfolding initial
catch_up-answers_example = catch_up-answers calm 10 3 (initial small 20 tt)

run_machine-result_example :
    is_some (run_machine calm 30 (some StateId.connect) (initial small 20 tt)).1.result ≡ true
unfolding execute
run_machine-result_example = run_machine-result calm 30 StateId.connect (initial small 20 tt) refl

-- A state that is waited for twice and is then ready, in the mode that only logs.
abbrev patient : WatchdogConf
patient = record {
  watchdog_mode = WatchdogMode.log;
  watchdog_default_timeout = 90;
  watchdog_state_timeouts = λ s. none;
  polling_interval = 100;
}

run_state_async-ready_example :
    run_state_async {A = Option StateId} patient StateId.start
      (FutureStatus.timeout ∷ FutureStatus.deferred ∷ FutureStatus.ready ∷ [])
      (some StateId.step_begin)
    ≡ finished (some StateId.step_begin)
unfolding timeout_of times_out
run_state_async-ready_example =
    run_state_async-ready patient StateId.start (FutureStatus.timeout ∷ FutureStatus.deferred ∷ [])
      [] (some StateId.step_begin) (refl, (refl, tt))

abbrev under_ego : Registrar
under_ego = record { trigger_prefix = 101 ∷ [] }

ego_a : make_trigger_name (97 ∷ []) under_ego ≡ some (101 ∷ 47 ∷ 97 ∷ [])
unfolding make_trigger_name make_prefix eq_text
ego_a = refl

-- The first component is made from the second.
abbrev fusion : ComponentConf
fusion = record { key = "fusion"; from = "radar" ∷ [] }

abbrev radar : ComponentConf
radar = record { key = "radar"; from = [] }

abbrev nothing_yet : Configured
nothing_yet = record { components = []; configured = [] }

abbrev always : ComponentConf → Bool
always c = true

once_each : (q : String) → count_key q (fusion ∷ radar ∷ []) ≤ 1
unfolding count_key
once_each q =
    let differ : str_eq fusion.key radar.key ≡ false = refl in
    ground (arith, differ, eq_iff q fusion.key, eq_iff q radar.key, eq_iff fusion.key radar.key)

resolve_components-ends_example :
    resolve_components always 3 (fusion ∷ radar ∷ []) nothing_yet ≢ out_of_fuel
unfolding count_done
resolve_components-ends_example =
    resolve_components-ends always 3 (fusion ∷ radar ∷ []) nothing_yet once_each refl (ground arith)

both_made :
    resolve_components always 3 (fusion ∷ radar ∷ []) nothing_yet
    ≡ complete
        (record { components = "fusion" ∷ "radar" ∷ []; configured = "fusion" ∷ "radar" ∷ [] })
unfolding resolve_components make_pass report_missing missing set_component
both_made = refl
