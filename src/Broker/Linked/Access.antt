-- ===== src/Broker/Linked/Access.antt =====
-- Writing, subscribing and binding to Lua keep the signals linked:
-- runtime/include/cloe/data_broker.hpp.
use cloe.Prelude.{ℕ, not, Option, none, some, String, lookup, arith}
use cloe.Broker.Types.{out_of_range, dangling, Accessor, of_container, of_variable, DataBroker, put}
use cloe.Broker.Signals.{on_signal, holds}
use cloe.Broker.Access.{
  signal, raise, notify, container_set, run_setter, typed, signal_set_value, add_subscriber,
  signal_subscribe, set_value, subscribe, bind_accessor, adapter, bind_typed, bind_signal,
  set_property_lua,
}
use cloe.Broker.Results.{if-keeps, on_result, on_result-keeps, and_then-keeps, found}
use cloe.Broker.Linked.{get_of, set_of, signal_of, event_of, names_of, IsLinked}

module _ {V : Type 0} where
  pub container_set-IsLinked :
      (k : ℕ) (v : V) (b : DataBroker V) → IsLinked b → IsLinked (container_set k v b).1
  unfolding container_set notify raise put get_of set_of signal_of event_of names_of
  container_set-IsLinked k v b h = record {
    reads = λ j i e. ground (arith, h.reads j i);
    writes = λ j i e. ground (arith, h.writes j i);
    fresh = λ j l. ground (arith, h.fresh j);
    known = λ q j e. ground (arith, h.known q j);
    paired = λ j. ground (arith, h.paired j);
    named = λ j q. ground (arith, h.named j q);
    notifies = λ i j e. ground (arith, h.notifies i j);
  }

  pub signal_subscribe-IsLinked :
      (t s f : ℕ) (b : DataBroker V) → IsLinked b → IsLinked (signal_subscribe t s f b).1
  unfolding signal_subscribe on_result typed on_signal add_subscriber put get_of set_of signal_of
      event_of names_of
  signal_subscribe-IsLinked t s f b h = record {
    reads = λ j i e. ground (arith, h.reads j i);
    writes = λ j i e. ground (arith, h.writes j i);
    fresh = λ j l. ground (arith, h.fresh j);
    known = λ q j e. ground (arith, h.known q j);
    paired = λ j. ground (arith, h.paired j);
    named = λ j q. ground (arith, h.named j q);
    notifies = λ i j e. ground (arith, h.notifies i j);
  }

  pub bind_accessor-IsLinked :
      (s : ℕ) (lua_name : String) (b : DataBroker V)
      → IsLinked b
      → IsLinked (bind_accessor s lua_name b).1
  unfolding bind_accessor get_of set_of signal_of event_of names_of
  bind_accessor-IsLinked s lua_name b h = record {
    reads = λ j i e. ground (arith, h.reads j i);
    writes = λ j i e. ground (arith, h.writes j i);
    fresh = λ j l. ground (arith, h.fresh j);
    known = λ q j e. ground (arith, h.known q j);
    paired = λ j. ground (arith, h.paired j);
    named = λ j q. ground (arith, h.named j q);
    notifies = λ i j e. ground (arith, h.notifies i j);
  }

  run_setter-IsLinked :
      (a : Option Accessor) (v : V) (b : DataBroker V) → IsLinked b → IsLinked (run_setter a v b).1
  unfolding run_setter get_of set_of signal_of event_of names_of
  run_setter-IsLinked none v b h = h
  run_setter-IsLinked (some (of_container k)) v b h = container_set-IsLinked k v b h
  run_setter-IsLinked (some (of_variable p)) v b h = record {
    reads = h.reads;
    writes = h.writes;
    fresh = h.fresh;
    known = h.known;
    paired = h.paired;
    named = h.named;
    notifies = h.notifies;
  }

  pub signal_set_value-IsLinked :
      (t s : ℕ) (v : V) (b : DataBroker V) → IsLinked b → IsLinked (signal_set_value t s v b).1
  unfolding signal_set_value
  signal_set_value-IsLinked t s v b h =
      on_result-keeps IsLinked (typed t s b) b _ h (λ x. run_setter-IsLinked x.set_value v b h)

  pub set_value-IsLinked :
      (t : ℕ) (name : String) (v : V) (b : DataBroker V)
      → IsLinked b
      → IsLinked (set_value t name v b).1
  unfolding set_value
  set_value-IsLinked t name v b h =
      on_result-keeps IsLinked (signal name b) b _ h (λ s. signal_set_value-IsLinked t s v b h)

  pub subscribe-IsLinked :
      (t : ℕ) (name : String) (f : ℕ) (b : DataBroker V)
      → IsLinked b
      → IsLinked (subscribe t name f b).1
  unfolding subscribe
  subscribe-IsLinked t name f b h =
      on_result-keeps IsLinked (signal name b) b _ h (λ s. signal_subscribe-IsLinked t s f b h)

  adapter-IsLinked :
      (nobody t s : ℕ) (lua_name : String) (b : DataBroker V)
      → IsLinked b
      → IsLinked (adapter nobody t s lua_name b).1
  unfolding adapter
  adapter-IsLinked nobody t s lua_name b h =
      and_then-keeps IsLinked (signal_subscribe t s nobody b) _
        (signal_subscribe-IsLinked t s nobody b h)
        (λ r b₁ h₁. bind_accessor-IsLinked s lua_name b₁ h₁)

  bind_typed-IsLinked :
      (nobody s : ℕ) (lua_name : String) (b : DataBroker V)
      → IsLinked b
      → IsLinked (bind_typed nobody s lua_name b).1
  unfolding bind_typed
  bind_typed-IsLinked nobody s lua_name b h =
      on_result-keeps IsLinked (found dangling (b.heap s)) b _ h (λ x.
        if-keeps IsLinked (holds x.type_id b.bindings) _ _
          (adapter-IsLinked nobody x.type_id s lua_name b h) h)

  pub bind_signal-IsLinked :
      (nobody : ℕ) (name lua_name : String) (b : DataBroker V)
      → IsLinked b
      → IsLinked (bind_signal nobody name lua_name b).1
  unfolding bind_signal
  bind_signal-IsLinked nobody name lua_name b h = if-keeps IsLinked (not b.lua) _ _ h (
      on_result-keeps IsLinked (signal name b) b _ h
        (λ s. bind_typed-IsLinked nobody s lua_name b h))

  pub set_property_lua-IsLinked :
      (name : String) (v : V) (b : DataBroker V)
      → IsLinked b
      → IsLinked (set_property_lua name v b).1
  unfolding set_property_lua
  set_property_lua-IsLinked name v b h =
      on_result-keeps IsLinked (found out_of_range (lookup name b.lua_accessors)) b _ h (λ s.
        on_result-keeps IsLinked (found dangling (b.heap s)) b _ h
          (λ x. signal_set_value-IsLinked x.type_id s v b h))
