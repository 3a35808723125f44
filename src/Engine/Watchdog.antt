-- ===== src/Engine/Watchdog.antt =====
-- The watchdog over the states: SimulationMachine::run_state_async of
-- engine/src/simulation_machine.hpp. What the waits for the state's thread report is a list, and
-- times are milliseconds that are not negative.
use cloe.Prelude.{
  ℕ, ◌≡◌, Bool, true, false, ◌&&◌, ◌||◌, Option, none, some, List, [], ◌∷◌, ◌++◌, ltb,
  if◌then◌else◌, All, arith,
}
use cloe.Engine.Types.{StateId}

pub data WatchdogMode : Type 0 where
  off log abort kill : WatchdogMode

-- `std::future_status`
pub data FutureStatus : Type 0 where
  ready deferred timeout : FutureStatus

-- The timeout of a state may be missing, or given as none.
pub record WatchdogConf : Type 0 where
  pub watchdog_mode : WatchdogMode
  pub watchdog_default_timeout : ℕ
  pub watchdog_state_timeouts : StateId → Option (Option ℕ)
  pub polling_interval : ℕ

-- What `run_state_async` comes to: the result of the state, ABORT, the end of the process, or the
-- end of the list.
pub data Watched (A : Type 0) : Type 0 where
  finished : A → Watched A
  aborting killed waiting : Watched A

unfoldable pub timeout_of : StateId → WatchdogConf → ℕ
timeout_of id conf = elim (conf.watchdog_state_timeouts id) [
  | (some (some t)) ↦ t
  | (some none) ↦ conf.watchdog_default_timeout
  | none ↦ conf.watchdog_default_timeout
]

unfoldable pub interval_of : StateId → WatchdogConf → ℕ
unfolding timeout_of
interval_of id conf = let t = timeout_of id conf in if ltb 0 t then t else conf.polling_interval

-- The loop over the waits.
unfoldable pub watch : {A : Type 0} → WatchdogMode → ℕ → List FutureStatus → A → Watched A
watch mode t [] a = waiting
watch mode t (ready ∷ ss) a = finished a
watch mode t (deferred ∷ ss) a = watch mode t ss a
watch mode t (timeout ∷ ss) a =
    let again = watch mode t ss a in
    if ltb 0 t then elim mode [ abort ↦ aborting | kill ↦ killed | _ ↦ again ] else again

unfoldable pub run_state_async :
    {A : Type 0} → WatchdogConf → StateId → List FutureStatus → A → Watched A
unfolding watch timeout_of
run_state_async conf id statuses a = watch conf.watchdog_mode (timeout_of id conf) statuses a

abbrev pub is_timeout : FutureStatus → Bool
is_timeout timeout = true
is_timeout s = false

unfoldable pub times_out : List FutureStatus → Bool
times_out [] = false
times_out (s ∷ ss) = is_timeout s || times_out ss

abbrev pub is_ended : FutureStatus → Bool
is_ended ready = true
is_ended s = false

-- What is to become of a state that is late, or not.
abbrev pub verdict : {A : Type 0} → WatchdogMode → Bool → A → Watched A
verdict abort true a = aborting
verdict kill true a = killed
verdict mode late a = finished a

watch-ready :
    {A : Type 0} (mode : WatchdogMode) (t : ℕ) (waits rest : List FutureStatus) (a : A)
    → All (λ s. is_ended s ≡ false) waits
    → watch mode t (waits ++ ready ∷ rest) a ≡ verdict mode (ltb 0 t && times_out waits) a
unfolding watch times_out
watch-ready mode t [] rest a h = ground arith
watch-ready mode t (s ∷ ss) rest a h = ground (arith, watch-ready mode t ss rest a h.1)

-- When the thread of a state comes to its end after any number of waits, the state machine goes on:
-- with the result of the state, unless the state has a timeout, one of the waits exceeded it, and
-- the mode is to abort, which leads to ABORT, or to kill, which ends the process.
pub run_state_async-ready :
    {A : Type 0} (conf : WatchdogConf) (id : StateId) (waits rest : List FutureStatus) (a : A)
    → All (λ s. is_ended s ≡ false) waits
    → run_state_async conf id (waits ++ ready ∷ rest) a
      ≡ verdict conf.watchdog_mode (ltb 0 (timeout_of id conf) && times_out waits) a
unfolding run_state_async
run_state_async-ready conf id waits rest a h =
    watch-ready conf.watchdog_mode (timeout_of id conf) waits rest a h
