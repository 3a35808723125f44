-- ===== src/Triggers/Examples.antt =====
-- Examples of the properties of the triggers.
use cloe.Prelude.{
  ℕ, suc, ◌≡◌, refl, Bool, true, false, some, List, [], ◌∷◌, ◌++◌, lookup, ◌==◌, arith,
}
use cloe.Triggers.Transition.{make_transition, observe_all, observe_all-crossings}
use cloe.Triggers.Types.{Trigger, filesystem, CallbackResult, unpin, proceed, make, clone}
use cloe.Triggers.Direct.{
  Executed, left, undefined, out_of_fuel, walk, keep, filter, stays, trigger_all, is_unpin,
  trigger_all-filter, trigger_all-undefined,
}
use cloe.Triggers.History.{Log, execute_trigger, trigger_all-history}
use cloe.Triggers.Timed.{drain}
use cloe.Triggers.Draining.{Drained, drain-Drained}
use cloe.Triggers.ListQueue.{list_queue}
use cloe.Triggers.Coordinator.{
  Coordinator, process_pending_web_triggers, Processed, AllRegistered,
  process_pending_web_triggers-Processed,
}

-- A sticky trigger on `loop`, and a timed one.
abbrev on_loop : Trigger
unfolding make
on_loop = record (make "l" filesystem "loop" 0 1 false) { sticky = true; conceal = true }

abbrev at_time : ℕ → Trigger
unfolding make
at_time n = make "t" filesystem "next" n 2 false

abbrev always : Trigger → Bool
always t = true

-- Actions that count themselves, and go on or ask to be unpinned.
abbrev counts : CallbackResult → Trigger → ℕ → Executed ℕ
counts r t n = record { result = r; state = suc n; inserted = [] }

trigger_all-filter_example :
    trigger_all always (counts proceed) 3 (on_loop ∷ at_time 3 ∷ []) 0
    ≡ left (filter (stays always (counts proceed)) (on_loop ∷ at_time 3 ∷ [])) 2
unfolding is_unpin
trigger_all-filter_example =
    trigger_all-filter always (counts proceed) (on_loop ∷ at_time 3 ∷ []) 0
      ((λ s. refl), ((λ s. refl), tt)) ((λ s. (refl, refl)), ((λ s. (refl, refl)), tt))

trigger_all-undefined_example :
    trigger_all always (counts unpin) 2 ([] ++ on_loop ∷ []) 0 ≡ undefined
unfolding is_unpin on_loop
trigger_all-undefined_example =
    trigger_all-undefined always (counts unpin) [] on_loop 0 tt tt (λ s. (refl, refl)) refl refl
      refl

-- An action that inserts its trigger again keeps the walk going.
abbrev again : Trigger → ℕ → Executed ℕ
again t n = record { result = proceed; state = suc n; inserted = t ∷ [] }

walks_on : trigger_all always again 9 (at_time 3 ∷ []) 0 ≡ out_of_fuel
unfolding trigger_all walk keep is_unpin
walks_on = refl

trigger_all-history_example :
    (stayed : List Trigger) × (l : Log ℕ) × (trigger_all always
        (execute_trigger (counts proceed) 7)
        2
        (on_loop ∷ [])
        (record { world = 0; history = [] })
      ≡ left stayed l)
    × (l.history ≡ (7, clone on_loop) ∷ [])
unfolding on_loop is_unpin execute_trigger
trigger_all-history_example =
    trigger_all-history (counts proceed) 7 always (on_loop ∷ [])
      (record { world = 0; history = [] }) ((λ s. refl), tt) ((λ s. (refl, refl)), tt)

-- An action that inserts a trigger for later.
abbrev inserts : Trigger → ℕ → ℕ × List Trigger
inserts t n = (suc n, at_time 8 ∷ [])

drain-Drained_example :
    (q : List Trigger) × (s : ℕ) × (ran : List Trigger) × (drain list_queue inserts 6 3
        (at_time 9 ∷ at_time 4 ∷ [])
        0
      ≡ some (q, s))
    × Drained list_queue inserts 6 0 (at_time 9 ∷ at_time 4 ∷ []) 0 q s ran
unfolding at_time
drain-Drained_example =
    drain-Drained list_queue inserts 6 (λ t s. (omega arith, tt)) (at_time 9 ∷ at_time 4 ∷ []) 0

abbrev coordinator : Coordinator
coordinator = record {
  actions = [];
  storage = ("next", []) ∷ ("time", []) ∷ [];
  input_queue = at_time 4 ∷ [];
}

process_pending_web_triggers-Processed_example :
    Processed 10 0 (at_time 4 ∷ []) coordinator (process_pending_web_triggers 10 coordinator)
unfolding AllRegistered lookup at_time
process_pending_web_triggers-Processed_example =
    process_pending_web_triggers-Processed 10 coordinator (refl, tt)

-- With a trigger behind the first one whose event is not registered.
abbrev half_registered : Coordinator
unfolding on_loop
half_registered = record coordinator { input_queue = at_time 4 ∷ on_loop ∷ [] }

abbrev same_number : ℕ → ℕ → Bool
same_number a b = a == b

same_number-eq : (a b : ℕ) → same_number a b ≡ true → a ≡ b
same_number-eq a b e = ground arith

-- From 1 to 3, with a detour that does not count.
observe_all-crossings_example :
    observe_all same_number (1 ∷ 3 ∷ 1 ∷ 2 ∷ 3 ∷ 1 ∷ 3 ∷ []) (make_transition 1 3)
    ≡ false ∷ true ∷ false ∷ false ∷ false ∷ false ∷ true ∷ []
observe_all-crossings_example =
    observe_all-crossings same_number 1 3 1 (3 ∷ 1 ∷ 2 ∷ 3 ∷ 1 ∷ 3 ∷ []) same_number-eq refl
