-- ===== src/Triggers/Coordinator.antt =====
-- The coordinator of engine/src/coordinator.cpp: what may be registered, the queue of inserted
-- triggers, and how they get to the storage of their event. Callbacks keep their triggers in lists
-- here, and none of them refuses a trigger; logging and the locks are left out.
use cloe.Prelude.{
  ◌≢◌, append_one, append_nil, ℕ, ◌+◌, ◌≡◌, refl, sym, subst, ap, ◌∙◌, String, str_eq, Bool, true,
  false, Option, none, some, List, [], ◌∷◌, ◌++◌, is_some, value_or, if◌then◌else◌, arith, lookup,
  insert, lookup-insert, eq_iff, length,
}
use cloe.Triggers.Types.{Trigger, make, lua}

pub record Coordinator : Type 0 where
  pub actions : List String
  pub storage : List (String × List Trigger)
  pub input_queue : List Trigger

unfoldable pub has_key : String → List String → Bool
has_key k [] = false
has_key k (j ∷ js) = if str_eq j k then true else has_key k js

-- `none` is the exception: a name is registered once.
unfoldable pub register_action : String → Coordinator → Option Coordinator
unfolding has_key
register_action key c =
    if has_key key c.actions then none else some (record c { actions = key ∷ c.actions })

-- An event is registered with its storage, which is empty.
unfoldable pub register_event : String → Coordinator → Option Coordinator
unfolding lookup insert
register_event key c =
    if is_some (lookup key c.storage)
    then none
    else some (record c { storage = insert key [] c.storage })

-- A trigger that is not there comes from an optional trigger of the stack file.
unfoldable pub queue_trigger : Option Trigger → Coordinator → Coordinator
queue_trigger none c = c
queue_trigger (some t) c = record c { input_queue = c.input_queue ++ t ∷ [] }

-- `NextCallback::emplace`: a trigger for the next step becomes a timed one.
unfoldable pub resolve : ℕ → Trigger → Trigger
resolve now t =
    if str_eq t.event_name "next" then record t { event_name = "time"; time = t.time + now } else t

unfoldable pub stored : String → List (String × List Trigger) → List Trigger
unfolding lookup
stored key m = value_or (lookup key m) []

-- `store_trigger`: `none` is the exception for an event that is not registered.
unfoldable pub store_trigger : ℕ → Trigger → Coordinator → Option Coordinator
unfolding lookup insert resolve stored
store_trigger now t c =
    let u = resolve now (record t { since = now }) in
    if is_some (lookup t.event_name c.storage)
    then some (record c {
      storage = insert u.event_name (stored u.event_name c.storage ++ u ∷ []) c.storage;
    })
    else none

-- The loop of `process_pending_web_triggers` over the queue, with the count of the triggers that it
-- has stored. A trigger that cannot be stored stays in front of the queue, and the loop ends by the
-- exception, `none`.
unfoldable pub process_from : ℕ → List Trigger → ℕ → Coordinator → Option ℕ × Coordinator
unfolding store_trigger
process_from now [] count c = (some count, record c { input_queue = [] })
process_from now (t ∷ ts) count c = elim (store_trigger now t c) [
  | none ↦ (none, record c { input_queue = t ∷ ts })
  | some c' ↦ process_from now ts (count + 1) c'
]

unfoldable pub process_pending_web_triggers : ℕ → Coordinator → Option ℕ × Coordinator
unfolding process_from
process_pending_web_triggers now c = process_from now c.input_queue 0 c

-- What the storage of an event gets from a queue.
unfoldable pub for_event : String → ℕ → List Trigger → List Trigger
unfolding resolve
for_event key now [] = []
for_event key now (t ∷ ts) =
    let u = resolve now (record t { since = now }) in
    if str_eq u.event_name key then u ∷ for_event key now ts else for_event key now ts

unfoldable pub AllRegistered : List (String × List Trigger) → List Trigger → Type 0
unfolding lookup
AllRegistered m [] = Unit
AllRegistered m (t ∷ ts) = (is_some (lookup t.event_name m) ≡ true) × AllRegistered m ts

-- `make_trigger` for a Lua table: the label and the source of the action are optional.
unfoldable pub lua_label : Option String → Option String → String
lua_label none (some source) = source
lua_label none none = ""
lua_label (some label) source = ""

unfoldable pub make_trigger_from_lua :
    Option String → Option String → Option Bool → String → ℕ → ℕ → Bool → Trigger
unfolding make lua_label
make_trigger_from_lua label action_source sticky event_name time action significant =
    record (make (lua_label label action_source) lua event_name time action significant) {
      sticky = value_or sticky false;
    }

stored-insert :
    (k j : String) (ts : List Trigger) (m : List (String × List Trigger))
    → stored j (insert k ts m) ≡ (if str_eq k j then ts else stored j m)
unfolding stored
stored-insert k j ts m = ground (arith, lookup-insert k j ts m)

AllRegistered-insert :
    (k : String) (us : List Trigger) (m : List (String × List Trigger)) (ts : List Trigger)
    → AllRegistered m ts
    → AllRegistered (insert k us m) ts
unfolding AllRegistered
AllRegistered-insert k us m [] h = tt
AllRegistered-insert k us m (t ∷ ts) h =
    (ground (arith, lookup-insert k t.event_name us m, h.0), AllRegistered-insert k us m ts h.1)

pub store_trigger-registered :
    (now : ℕ) (t : Trigger) (c : Coordinator)
    → is_some (lookup t.event_name c.storage) ≡ true
    → let u = resolve now (record t { since = now }) in
      store_trigger now t c
      ≡ some (record c {
        storage = insert u.event_name (stored u.event_name c.storage ++ u ∷ []) c.storage;
      })
unfolding store_trigger stored resolve
store_trigger-registered now t c h = rw h

pub stored-step :
    (u : Trigger) (key : String) (m : List (String × List Trigger)) (rest : List Trigger)
    → stored key (insert u.event_name (stored u.event_name m ++ u ∷ []) m) ++ rest
      ≡ stored key m ++ (if str_eq u.event_name key then u ∷ rest else rest)
stored-step u key m rest = ground (
  arith,
  stored-insert u.event_name key (stored u.event_name m ++ u ∷ []) m,
  append_one (stored key m) u rest,
  eq_iff u.event_name key,
)

-- What processing the queue does, from a count on.
pub record Processed (now count : ℕ) (ts : List Trigger) (c : Coordinator)
    (r : Option ℕ × Coordinator) : Type 0 where
  pub counted : r.0 ≡ some (count + length ts)
  pub emptied : r.1.input_queue ≡ []
  pub distributed :
      (key : String) → stored key r.1.storage ≡ stored key c.storage ++ for_event key now ts

process_from-Processed :
    (now count : ℕ) (ts : List Trigger) (c : Coordinator)
    → AllRegistered c.storage ts
    → Processed now count ts c (process_from now ts count c)
unfolding process_from AllRegistered for_event
process_from-Processed now count [] c h = record {
  counted = ap some (omega arith);
  emptied = refl;
  distributed = λ key. sym (append_nil (stored key c.storage));
}
process_from-Processed now count (t ∷ ts) c h =
    let u = resolve now (record t { since = now }) in
    let c' = record c {
      storage = insert u.event_name (stored u.event_name c.storage ++ u ∷ []) c.storage;
    } in
    let p =
      process_from-Processed now (count + 1) ts c'
        (AllRegistered-insert u.event_name _ c.storage ts h.1) in
    subst
      (λ o. Processed now count (t ∷ ts) c (elim o [
        | none ↦ (none, record c { input_queue = t ∷ ts })
        | some d ↦ process_from now ts (count + 1) d
      ]))
      (sym (store_trigger-registered now t c h.0))
      (record {
        counted = p.counted ∙ ap some (omega arith);
        emptied = p.emptied;
        distributed = λ key. p.distributed key ∙ stored-step u key c.storage (for_event key now ts);
      })

-- If the events of all the queued triggers are registered, processing the queue stores them all:
-- the queue is empty then, the count is right, and each event has got its own triggers, in their
-- order behind those that it had; a trigger for the next step has become a timed one.
pub process_pending_web_triggers-Processed :
    (now : ℕ) (c : Coordinator)
    → AllRegistered c.storage c.input_queue
    → Processed now 0 c.input_queue c (process_pending_web_triggers now c)
unfolding process_pending_web_triggers
process_pending_web_triggers-Processed now c h = process_from-Processed now 0 c.input_queue c h

-- A trigger of a Lua table never has the label that the table gives: it has none, unless the table
-- gives no label, and then that of its source.
pub make_trigger_from_lua-label :
    (label source : Option String) (sticky : Option Bool) (event_name : String) (time action : ℕ)
    (significant : Bool)
    → (make_trigger_from_lua label source sticky event_name time action significant).label
      ≡ (if is_some label then "" else value_or source "")
unfolding make_trigger_from_lua
make_trigger_from_lua-label none none sticky e t a s = refl
make_trigger_from_lua-label none (some n) sticky e t a s = refl
make_trigger_from_lua-label (some l) source sticky e t a s = refl

none-ne-some : {c : Coordinator} → none ≢ some c
none-ne-some e = cc

some-injective : {c d : Coordinator} → some c ≡ some d → c ≡ d
some-injective e = cc

fresh-found :
    (key : String) (m : List (String × List Trigger))
    → is_some (lookup key (insert key [] m)) ≡ true
fresh-found key m = ground (arith, lookup-insert key key [] m, eq_iff key key)

fresh-stored :
    (key k : String) (m : List (String × List Trigger))
    → is_some (lookup key m) ≡ false
    → stored k (insert key [] m) ≡ stored k m
unfolding stored
fresh-stored key k m h = ground (arith, lookup-insert key k [] m, eq_iff key k, h)

registered :
    (key : String) (c d : Coordinator) (b : Bool)
    → is_some (lookup key c.storage) ≡ b
    → (let o : Option Coordinator =
          (if b then none else some (record c { storage = insert key [] c.storage })) in
        o)
      ≡ some d
    → (is_some (lookup key d.storage) ≡ true)
      × ((k : String) → stored k d.storage ≡ stored k c.storage)
unfolding stored
registered key c d true h e = absurd (none-ne-some e)
registered key c d false h e =
    subst
      (λ x.
        (is_some (lookup key x.storage) ≡ true)
        × ((k : String) → stored k x.storage ≡ stored k c.storage))
      (some-injective e) (fresh-found key c.storage, λ k. fresh-stored key k c.storage h)

-- An event that has been registered cannot be registered again, and its registration leaves every
-- callback with the triggers that it had.
pub register_event-once :
    (key : String) (c d : Coordinator)
    → register_event key c ≡ some d
    → (register_event key d ≡ none) × ((k : String) → stored k d.storage ≡ stored k c.storage)
unfolding register_event
register_event-once key c d e =
    let (r, s) = registered key c d (is_some (lookup key c.storage)) refl e in (rw r, s)
