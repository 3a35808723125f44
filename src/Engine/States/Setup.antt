-- ===== src/Engine/States/Setup.antt =====
-- The states before the simulation loop: simulation_state_connect.cpp, simulation_state_probe.cpp
-- and simulation_state_start.cpp. Of `Connect` the phases that construct no model are one command
-- each; progress, logging and the wall clock are left out.
use cloe.Prelude.{
  ℕ, zero, suc, length, is_some, Bool, true, false, not, ◌&&◌, ◌||◌, Option, none, some, List, [],
  ◌∷◌, ◌++◌, ◌==◌, if◌then◌else◌,
}
use cloe.Engine.Types.{
  StateId, SimulationOutcome, increment_step, Exn, is_model_error, Kind, controller, vehicle,
  simulator, m_connect, m_start, on_start,
}
use cloe.Engine.Context.{
  Context, World, TriggerConf, on_model, trigger, insert_trigger, process_lua_triggers,
  process_triggers, refresh_buffer, phase, enroll_server, inject_signals,
}
use cloe.Engine.Monad.{
  Engine, pure, raise, terminate, asserting, try_catch, modify, gets, command, ◌>>=◌, ◌>>◌,
}
use cloe.Engine.Foreach.{foreach_model}

unfoldable pub contains : List ℕ → ℕ → Bool
contains [] n = false
contains (x ∷ xs) n = x == n || contains xs n

-- `catch (cloe::ModelError&)`, after which the configuration stops.
unfoldable pub give_up_on_model_error : {W : Type 0} → Exn → Option (Engine W Bool)
give_up_on_model_error e = if is_model_error e then some (pure false) else none

-- `catch (fable::SchemaError&)` and `catch (cloe::TriggerError&)`, which throw a `ConcludedError`.
unfoldable pub conclude : {W : Type 0} → Exn → Option (Engine W Unit)
conclude Exn.schema_error = some (raise Exn.concluded_error)
conclude Exn.trigger_error = some (raise Exn.concluded_error)
conclude e = none

abbrev pub added : {W : Type 0} → Kind → ℕ → Context W → Context W
added controller n c = record c { controllers = c.controllers ++ n ∷ [] }
added vehicle n c = record c { vehicles = c.vehicles ++ n ∷ [] }
added simulator n c = record c { simulators = c.simulators ++ n ∷ [] }

abbrev pub models : {W : Type 0} → Kind → Context W → List ℕ
models controller c = c.controllers
models vehicle c = c.vehicles
models simulator c = c.simulators

-- Whether the prototype of a vehicle is there.
abbrev pub is_ready : Option ℕ → List ℕ → Bool
is_ready none vs = true
is_ready (some m) vs = contains vs m

-- `ctx.outcome = …`.
unfoldable pub decide : {W : Type 0} → SimulationOutcome → Engine W Unit
decide o = modify λ c. record c { outcome = some o }

module _ {W : Type 0} (w : World W) where
  -- Create, connect and enroll the models of one kind, in the order of the configuration.
  unfoldable pub configure : Kind → List ℕ → Engine W Bool
  configure k [] = pure true
  configure k (n ∷ ns) = do
    there ← gets (λ c. contains (models k c) n)
    asserting (not there) do
      made ←
          try_catch (do command w (on_model m_connect k n); modify (added k n); pure true)
            give_up_on_model_error
      if made then configure k ns else pure false

  -- Once through the configurations of the vehicles. A vehicle whose prototype is not there yet
  -- waits; what a vehicle needs from its simulator and its components is behind the call.
  unfoldable pub configure_vehicles : List ℕ → Engine W Bool
  configure_vehicles [] = pure true
  configure_vehicles (n ∷ ns) = do
    vs ← gets (λ c. c.vehicles)
    source ← gets (λ c. c.config.from_vehicle n)
    if contains vs n || not (is_ready source vs) then configure_vehicles ns else do
      made ←
          try_catch
            (do command w (on_model m_connect vehicle n); modify (added vehicle n); pure true)
            give_up_on_model_error
      if made then configure_vehicles ns else pure false

  -- The first vehicle that is not there must wait for another one, and cannot be made.
  unfoldable pub report_unresolved : List ℕ → Engine W Bool → Engine W Bool
  report_unresolved [] again = again
  report_unresolved (n ∷ ns) again = do
    vs ← gets (λ c. c.vehicles)
    source ← gets (λ c. c.config.from_vehicle n)
    if contains vs n
        then report_unresolved ns again
        else asserting (is_some source) (raise Exn.model_error)

  -- The rounds of the loop over the vehicles; with one more round than there are vehicles, its end
  -- is not reached unless two of them have the same name.
  unfoldable pub resolve_vehicles : ℕ → List ℕ → Engine W Bool
  resolve_vehicles zero ns = terminate
  resolve_vehicles (suc fuel) ns = do
    before ← gets (λ c. length c.vehicles)
    if before == length ns then pure true else do
      made ← configure_vehicles ns
      after ← gets (λ c. length c.vehicles)
      if not made
          then pure false
          else if after == before
          then report_unresolved ns (resolve_vehicles fuel ns)
          else resolve_vehicles fuel ns

  unfoldable pub configure_all_vehicles : List ℕ → Engine W Bool
  configure_all_vehicles ns = resolve_vehicles (suc (length ns)) ns

  -- What follows the first line of `Connect`: the outcome that holds until another is known.
  unfoldable pub connect_rest : Engine W (Option StateId)
  connect_rest = do
    command w refresh_buffer
    command w refresh_buffer
    command w (phase enroll_server)
    command w refresh_buffer
    simulator_confs ← gets (λ c. c.config.simulator_confs)
    simulators_made ← configure simulator simulator_confs
    if not simulators_made then pure (some StateId.abort) else do
      command w refresh_buffer
      vehicle_confs ← gets (λ c. c.config.vehicle_confs)
      vehicles_made ← configure_all_vehicles vehicle_confs
      if not vehicles_made then pure (some StateId.abort) else do
        command w refresh_buffer
        controller_confs ← gets (λ c. c.config.controller_confs)
        controllers_made ← configure controller controller_confs
        if not controllers_made then pure (some StateId.abort) else do
          command w (phase inject_signals)
          command w refresh_buffer
          probing ← gets (λ c. c.config.probe_simulation)
          pure (some (if probing then StateId.probe else StateId.start))

  unfoldable pub connect_impl : Engine W (Option StateId)
  connect_impl = decide SimulationOutcome.no_start >> connect_rest

  unfoldable pub probe_impl : Engine W (Option StateId)
  probe_impl = do
    decide SimulationOutcome.probing
    modify (λ c. record c { probed = true })
    pure (some StateId.disconnect)

  unfoldable pub insert_triggers : Bool → List TriggerConf → Engine W Unit
  insert_triggers all_sources [] = pure tt
  insert_triggers all_sources (t ∷ ts) =
      if not all_sources && t.transient then insert_triggers all_sources ts else do
        try_catch (command w (insert_trigger t.definition)) conclude
        insert_triggers all_sources ts

  unfoldable pub start_model : Kind → ℕ → Engine W Bool
  start_model k n = do command w (on_model m_start k n); pure true

  unfoldable pub start_impl : Engine W (Option StateId)
  start_impl = do
    ignore_source ← gets (λ c. c.config.triggers_ignore_source)
    triggers ← gets (λ c. c.config.triggers)
    insert_triggers ignore_source triggers
    command w process_lua_triggers
    command w process_triggers
    command w (trigger on_start)
    foreach_model start_model
    modify (λ c. record c { sync = increment_step c.sync })
    pausing ← gets (λ c. c.pause_execution)
    pure (some (if pausing then StateId.pause else StateId.step_begin))
