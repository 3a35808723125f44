-- ===== src/Broker/Access.antt =====
-- Reading, writing and subscribing: runtime/include/cloe/data_broker.hpp.
use cloe.Prelude.{
  ℕ, not, Option, none, some, [], ◌∷◌, ◌++◌, map, String, lookup, insert, ◌==◌, if◌then◌else◌,
  is_some,
}
use cloe.Broker.Types.{
  out_of_range, logic_error, runtime_error, dangling, Result, Done, returned, thrown, Accessor,
  of_container, of_variable, Signal, DataBroker, put,
}
use cloe.Broker.Results.{and_then, on_result, and_return, found}
use cloe.Broker.Signals.{on_signal, holds}

unfoldable pub add_subscriber : ℕ → Signal → Signal
add_subscriber f x = record x { value_changed_event = x.value_changed_event ++ f ∷ [] }

module _ {V : Type 0} where
  -- `signal(name)`
  unfoldable pub signal : String → DataBroker V → Result ℕ
  unfolding found
  signal name b = found out_of_range (lookup name b.signals)

  -- `Event::raise`: the subscribers are called in order.
  unfoldable pub raise : ℕ → V → DataBroker V → DataBroker V
  raise s v b = elim (b.heap s) [
    | none ↦ b
    | (some x) ↦ record b { calls = b.calls ++ map (λ f. (f, v)) x.value_changed_event }
  ]

  unfoldable pub notify : Option ℕ → V → DataBroker V → DataBroker V
  unfolding raise
  notify none v b = b
  notify (some s) v b = raise s v b

  -- `BasicContainer::set_value`
  unfoldable pub container_set : ℕ → V → DataBroker V → Done × DataBroker V
  unfolding notify put
  container_set k v b = elim (b.containers k) [
    | none ↦ (thrown dangling, b)
    | (some c) ↦ (
      returned tt,
      notify c.on_value_changed v
          (record b { containers = put k (some (record c { value = v })) b.containers }),
    )
  ]

  unfoldable pub container_get : ℕ → DataBroker V → Result V
  container_get k b = elim (b.containers k) [ none ↦ thrown dangling | (some c) ↦ returned c.value ]

  unfoldable pub run_getter : Option Accessor → DataBroker V → Result V
  unfolding container_get
  run_getter none b = thrown logic_error
  run_getter (some (of_container k)) b = container_get k b
  run_getter (some (of_variable p)) b = returned (b.variables p)

  unfoldable pub run_setter : Option Accessor → V → DataBroker V → Done × DataBroker V
  unfolding container_set
  run_setter none v b = (thrown logic_error, b)
  run_setter (some (of_container k)) v b = container_set k v b
  run_setter (some (of_variable p)) v b =
      (returned tt, record b { variables = λ q. if q == p then v else b.variables q })

  -- `assert_dynamic_type`, and the signal that has passed it.
  unfoldable pub typed : ℕ → ℕ → DataBroker V → Result Signal
  typed t s b = elim (b.heap s) [
    | none ↦ thrown dangling
    | (some x) ↦ if x.type_id == t then returned x else thrown logic_error
  ]

  unfoldable pub signal_value : ℕ → ℕ → DataBroker V → Result V
  unfolding typed run_getter and_return
  signal_value t s b = and_return (typed t s b) (λ x. run_getter x.get_value b)

  unfoldable pub signal_set_value : ℕ → ℕ → V → DataBroker V → Done × DataBroker V
  unfolding typed run_setter on_result
  signal_set_value t s v b = on_result (typed t s b) b (λ x. run_setter x.set_value v b)

  unfoldable pub signal_subscribe : ℕ → ℕ → ℕ → DataBroker V → Done × DataBroker V
  unfolding typed on_signal add_subscriber on_result
  signal_subscribe t s f b =
      on_result (typed t s b) b (λ x. (returned tt, on_signal s (add_subscriber f) b))

  unfoldable pub value : ℕ → String → DataBroker V → Result V
  unfolding signal signal_value and_return
  value t name b = and_return (signal name b) (λ s. signal_value t s b)

  unfoldable pub set_value : ℕ → String → V → DataBroker V → Done × DataBroker V
  unfolding signal signal_set_value on_result
  set_value t name v b = on_result (signal name b) b (λ s. signal_set_value t s v b)

  unfoldable pub subscribe : ℕ → String → ℕ → DataBroker V → Done × DataBroker V
  unfolding signal signal_subscribe on_result
  subscribe t name f b = on_result (signal name b) b (λ s. signal_subscribe t s f b)

  -- `SignalsObject::bind`, of a signal that `bind_signal` has found.
  unfoldable pub bind_accessor : ℕ → String → DataBroker V → Done × DataBroker V
  bind_accessor s lua_name b =
      if is_some (lookup lua_name b.lua_accessors)
      then (thrown out_of_range, b)
      else (returned tt, record b { lua_accessors = insert lua_name s b.lua_accessors })

  -- The adapter of the signal's own type, whose empty subscriber is the number `nobody`.
  unfoldable pub adapter : ℕ → ℕ → ℕ → String → DataBroker V → Done × DataBroker V
  unfolding and_then signal_subscribe bind_accessor
  adapter nobody t s lua_name b =
      and_then (signal_subscribe t s nobody b) (λ r b₁. bind_accessor s lua_name b₁)

  -- The type is that of the signal itself.
  unfoldable pub bind_typed : ℕ → ℕ → String → DataBroker V → Done × DataBroker V
  unfolding adapter on_result found
  bind_typed nobody s lua_name b = on_result (found dangling (b.heap s)) b (λ x.
      if holds x.type_id b.bindings
      then adapter nobody x.type_id s lua_name b
      else (thrown runtime_error, b))

  unfoldable pub bind_signal : ℕ → String → String → DataBroker V → Done × DataBroker V
  unfolding bind_typed signal on_result
  bind_signal nobody signal_name lua_name b =
      if not b.lua
      then (thrown logic_error, b)
      else on_result (signal signal_name b) b (λ s. bind_typed nobody s lua_name b)

  -- The getter and the setter of a Lua property have the type of the signal.
  unfoldable pub get_property_lua : String → DataBroker V → Result V
  unfolding signal_value found and_return
  get_property_lua name b =
      and_return (found out_of_range (lookup name b.lua_accessors))
        (λ s. and_return (found dangling (b.heap s)) (λ x. signal_value x.type_id s b))

  unfoldable pub set_property_lua : String → V → DataBroker V → Done × DataBroker V
  unfolding signal_set_value found on_result
  set_property_lua name v b =
      on_result (found out_of_range (lookup name b.lua_accessors)) b
        (λ s. on_result (found dangling (b.heap s)) b (λ x. signal_set_value x.type_id s v b))
