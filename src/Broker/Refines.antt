-- ===== src/Broker/Refines.antt =====
-- The data broker implements the registry of cells: runtime/include/cloe/data_broker.hpp.
pub mod Commands
use cloe.Prelude.{
  ℕ, zero, suc, ◌≤◌, ◌≡◌, refl, ap, ap₂, ◌∙◌, subst, Bool, true, false, Option, none, some, List,
  [], ◌∷◌, ◌++◌, map, String, Map, insert, lookup, lookup-insert, ◌==◌, if◌then◌else◌, is_some,
  str_eq, arith, Option-cases, inl, inr, ◌⊎◌,
}
use cloe.Broker.Types.{
  Error, invalid_argument, out_of_range, logic_error, dangling, Result, Done, returned, thrown,
  Accessor, of_container, of_variable, Signal, BasicContainer, DataBroker, put,
}
use cloe.Broker.Results.{and_then, on_result, and_return, found}
use cloe.Broker.Signals.{
  alias, implement, declare, declare_type, create_container, on_signal, add_name, make,
  update_accessor_functions, set_accessors,
}
use cloe.Broker.Access.{
  signal, typed, value, set_value, subscribe, signal_value, signal_set_value, signal_subscribe,
  add_subscriber, run_getter, run_setter, container_get, container_set, notify, raise,
}
use cloe.Broker.Linked.{IsLinked, get_of, set_of, signal_of, event_of}
use cloe.Broker.Reach.{implement-IsLinked, initial, initial-IsLinked}
use cloe.Broker.Linked.Naming.{alias-IsLinked}
use cloe.Broker.Linked.Access.{signal_set_value-IsLinked, signal_subscribe-IsLinked}
use cloe.Broker.Spec.{
  Cell, Registry, Command, implement_as, alias_to, subscribe_to, write, read, Answer, of_signal,
  of_done, of_value, typed_cell, bind, write_cell, subscribe_cell, new_cell, specified, answered,
  run_specified, run_broker,
}

module _ {V : Type 0} where
  -- The cell that a signal and its container make up.
  unfoldable pub cell_by : Signal → Option Accessor → DataBroker V → Option (Cell V)
  cell_by x none b = none
  cell_by x (some (of_variable p)) b = none
  cell_by x (some (of_container k)) b = elim (b.containers k) [
    | none ↦ none
    | (some c) ↦
        some (record { type_id = x.type_id; value = c.value; subscribers = x.value_changed_event })
  ]

  unfoldable pub cell_of : ℕ → DataBroker V → Option (Cell V)
  unfolding cell_by
  cell_of s b = elim (b.heap s) [ none ↦ none | (some x) ↦ cell_by x x.get_value b ]

  -- The broker stands for the registry, and from the address `k` on there are no containers.
  pub record Refines (k : ℕ) (b : DataBroker V) (a : Registry V) : Type 0 where
    pub linked : IsLinked b
    pub bound : b.signals ≡ a.bound
    pub next : b.next_signal ≡ a.next
    pub calls : b.calls ≡ a.calls
    pub cells : (s : ℕ) → a.cells s ≡ cell_of s b
    pub implemented : (s : ℕ) → is_some (b.heap s) ≡ is_some (cell_of s b)
    pub free : (j : ℕ) → k ≤ j → b.containers j ≡ none

  pub value-Refines :
      (t s k : ℕ) (b : DataBroker V) (a : Registry V)
      → Refines k b a
      → signal_value t s b ≡ and_return (typed_cell t s a) (λ c. returned c.value)
  unfolding signal_value and_return typed typed_cell run_getter container_get cell_of cell_by
  value-Refines t s k b a h = ground (arith, h.cells s, h.implemented s)

  -- The container that implements a signal.
  contained :
      (s k : ℕ) (x : Signal) (b : DataBroker V) (a : Registry V) (g : Option Accessor)
      → Refines k b a
      → b.heap s ≡ some x
      → x.get_value ≡ g
      → (j : ℕ) × (x.get_value ≡ some (of_container j))
  unfolding cell_of cell_by
  contained s k x b a none h e f = ground (arith, h.implemented s)
  contained s k x b a (some (of_variable p)) h e f = ground (arith, h.implemented s)
  contained s k x b a (some (of_container j)) h e f = (j, f)

  write_known :
      (t s k j : ℕ) (x : Signal) (v : V) (b : DataBroker V) (a : Registry V)
      → Refines k b a
      → b.heap s ≡ some x
      → x.get_value ≡ some (of_container j)
      → ((signal_set_value t s v b).0 ≡ (write_cell t s v a).0)
        × Refines k (signal_set_value t s v b).1 (write_cell t s v a).1
  unfolding signal_set_value write_cell on_result typed typed_cell run_setter container_set notify
      raise put cell_of cell_by get_of set_of signal_of event_of
  write_known t s k j x v b a h e f =
      let at = h.cells s in
      let same = h.linked.paired s in
      let mine = h.linked.reads s j (ground arith) in
      let told = h.linked.notifies j s mine in
      (
        ground (arith, at, same),
        record {
          linked = signal_set_value-IsLinked t s v b h.linked;
          bound = ground (arith, h.bound);
          next = ground (arith, h.next);
          calls = ground (arith, h.calls, at, same, told);
          cells = λ q. ground (arith, h.cells q, at, same, h.linked.reads q j);
          implemented = λ q. ground (arith, h.implemented q, same);
          free = λ i l. ground (arith, h.free i l);
        },
      )

  write_missing :
      (t s k : ℕ) (v : V) (b : DataBroker V) (a : Registry V)
      → Refines k b a
      → b.heap s ≡ none
      → ((signal_set_value t s v b).0 ≡ (write_cell t s v a).0)
        × Refines k (signal_set_value t s v b).1 (write_cell t s v a).1
  unfolding signal_set_value write_cell on_result typed typed_cell cell_of
  write_missing t s k v b a h e = let at = h.cells s in ground (arith, h)

  pub write-Refines :
      (t s k : ℕ) (v : V) (b : DataBroker V) (a : Registry V)
      → Refines k b a
      → ((signal_set_value t s v b).0 ≡ (write_cell t s v a).0)
        × Refines k (signal_set_value t s v b).1 (write_cell t s v a).1
  unfolding signal_set_value write_cell on_result typed typed_cell cell_of
  write-Refines t s k v b a h = elim (Option-cases (b.heap s)) [
    | (inl e) ↦ write_missing t s k v b a h e
    | (inr (x, e)) ↦
        let (j, f) = contained s k x b a x.get_value h e refl in write_known t s k j x v b a h e f
  ]

  pub subscribe-Refines :
      (t s f k : ℕ) (b : DataBroker V) (a : Registry V)
      → Refines k b a
      → ((signal_subscribe t s f b).0 ≡ (subscribe_cell t s f a).0)
        × Refines k (signal_subscribe t s f b).1 (subscribe_cell t s f a).1
  unfolding signal_subscribe subscribe_cell on_result typed typed_cell add_subscriber on_signal put
      cell_of cell_by
  subscribe-Refines t s f k b a h =
      let at = h.cells s in
      let here = h.implemented s in
      (
        ground (arith, at, here),
        record {
          linked = signal_subscribe-IsLinked t s f b h.linked;
          bound = ground (arith, h.bound);
          next = ground (arith, h.next);
          calls = ground (arith, h.calls);
          cells = λ q. ground (arith, h.cells q, at, here);
          implemented = λ q. ground (arith, h.implemented q, at, here);
          free = λ i l. ground (arith, h.free i l);
        },
      )

  pub alias-Refines :
      (s k : ℕ) (name : String) (b : DataBroker V) (a : Registry V)
      → Refines k b a
      → is_some (b.heap s) ≡ true
      → ((alias s name b).0 ≡ (bind s name a).0) × Refines k (alias s name b).1 (bind s name a).1
  unfolding alias bind on_signal add_name put cell_of cell_by
  alias-Refines s k name b a h live = (
    ground (arith, h.bound),
    record {
      linked = alias-IsLinked s name b live h.linked;
      bound = ground (arith, h.bound);
      next = ground (arith, h.next, h.bound);
      calls = ground (arith, h.calls, h.bound);
      cells = λ q. ground (arith, h.cells q, h.bound);
      implemented = λ q. ground (arith, h.implemented q);
      free = λ i l. ground (arith, h.free i l);
    },
  )

  pub implement-Refines :
      (v : V) (t k : ℕ) (name : String) (b : DataBroker V) (a : Registry V)
      → Refines k b a
      → ((implement v t name k b).0 ≡ (new_cell v t name a).0)
        × Refines (suc k) (implement v t name k b).1 (new_cell v t name a).1
  unfolding implement and_then declare declare_type make create_container update_accessor_functions
      set_accessors alias new_cell bind on_signal add_name put cell_of cell_by
  implement-Refines v t k name b a h =
      let free = h.free k (omega arith) in
      let fresh = h.linked.fresh b.next_signal (omega arith) in
      (
        ground (arith, h.bound, h.next),
        record {
          linked = implement-IsLinked v t name k b free h.linked;
          bound = ground (arith, h.bound, h.next);
          next = ground (arith, h.next, h.bound);
          calls = ground (arith, h.calls, h.bound, h.next);
          cells = λ q. ground (arith, h.cells q, h.bound, h.next, free, fresh, h.implemented q);
          implemented = λ q. ground (arith, h.implemented q, h.bound, h.next, free, fresh);
          free = λ i l. ground (arith, h.free i);
        },
      )
