-- ===== src/Broker/Writes.antt =====
-- What a write through the data broker does: runtime/include/cloe/data_broker.hpp.
use cloe.Prelude.{
  ℕ, ◌≡◌, ◌≢◌, refl, false, Option, none, some, ◌++◌, map, String, lookup, ◌==◌, arith,
  Option-cases, inl, inr, ◌∙◌,
}
use cloe.Broker.Types.{
  out_of_range, dangling, returned, thrown, Accessor, of_container, of_variable, Signal, DataBroker,
  put,
}
use cloe.Broker.Results.{found, on_result, and_return}
use cloe.Broker.Access.{
  container_set, container_get, notify, raise, signal, typed, run_getter, run_setter, container_get,
  signal_value, signal_set_value, value, set_value,
}
use cloe.Broker.Reach.{Reachable, Reachable-IsLinked}
use cloe.Broker.Linked.{IsLinked, get_of, set_of, signal_of, event_of}

module _ {V : Type 0} where
  getter_ne-dangling :
      (s : ℕ) (b : DataBroker V) (a : Option Accessor)
      → IsLinked b
      → get_of s b ≡ a
      → run_getter a b ≢ thrown dangling
  unfolding run_getter container_get signal_of
  getter_ne-dangling s b none h e r = cc
  getter_ne-dangling s b (some (of_container k)) h e r = ground (arith, h.reads s k e)
  getter_ne-dangling s b (some (of_variable p)) h e r = cc

  setter_ne-dangling :
      (s : ℕ) (v : V) (b : DataBroker V) (a : Option Accessor)
      → IsLinked b
      → set_of s b ≡ a
      → (run_setter a v b).0 ≢ thrown dangling
  unfolding run_setter container_set signal_of
  setter_ne-dangling s v b none h e r = cc
  setter_ne-dangling s v b (some (of_container k)) h e r = ground (arith, h.writes s k e)
  setter_ne-dangling s v b (some (of_variable p)) h e r = cc

  -- What a name leads to, where it leads to something.
  read_by :
      (t : ℕ) (name : String) (b : DataBroker V) (o : Option ℕ)
      → IsLinked b
      → lookup name b.signals ≡ o
      → and_return (found out_of_range o) (λ s. signal_value t s b) ≢ thrown dangling
  unfolding and_return found signal_value typed get_of
  read_by t name b none h e r = cc
  read_by t name b (some s) h e r =
      ground (arith, h.known name s e, getter_ne-dangling s b (get_of s b) h refl)

  write_by :
      (t : ℕ) (name : String) (v : V) (b : DataBroker V) (o : Option ℕ)
      → IsLinked b
      → lookup name b.signals ≡ o
      → (on_result (found out_of_range o) b (λ s. signal_set_value t s v b)).0 ≢ thrown dangling
  unfolding on_result found signal_set_value typed set_of
  write_by t name v b none h e r = cc
  write_by t name v b (some s) h e r =
      ground (arith, h.known name s e, setter_ne-dangling s v b (set_of s b) h refl)

  -- A read or a write by name never meets a container or a signal that has ended, after whatever
  -- calls of the broker and the containers, unless a container has been moved onto one that had a
  -- signal.
  pub value-ne-dangling :
      (t : ℕ) (name : String) (v : V) (b : DataBroker V)
      → Reachable b
      → (value t name b ≢ thrown dangling) × ((set_value t name v b).0 ≢ thrown dangling)
  unfolding value set_value signal
  value-ne-dangling t name v b r =
      let h = Reachable-IsLinked b r in
      (
        read_by t name b (lookup name b.signals) h refl,
        write_by t name v b (lookup name b.signals) h refl,
      )

  -- A setter that has returned has put the value where the getter reads it.
  setter-getter :
      (a : Option Accessor) (v : V) (b : DataBroker V)
      → (run_setter a v b).0 ≡ returned tt
      → run_getter a (run_setter a v b).1 ≡ returned v
  unfolding run_setter run_getter container_set container_get notify raise put
  setter-getter none v b e = cc
  setter-getter (some (of_container k)) v b e = ground arith
  setter-getter (some (of_variable p)) v b e = ground arith

  -- A setter leaves the names and the signals.
  setter-heap :
      (a : Option Accessor) (v : V) (b : DataBroker V)
      → ((run_setter a v b).1.heap ≡ b.heap) × ((run_setter a v b).1.signals ≡ b.signals)
  unfolding run_setter container_set notify raise put
  setter-heap none v b = (refl, refl)
  setter-heap (some (of_container k)) v b = ground arith
  setter-heap (some (of_variable p)) v b = (refl, refl)

  signal_set_value-value :
      (t s : ℕ) (v : V) (b : DataBroker V)
      → IsLinked b
      → (signal_set_value t s v b).0 ≡ returned tt
      → (signal_value t s (signal_set_value t s v b).1 ≡ returned v)
        × ((signal_set_value t s v b).1.signals ≡ b.signals)
  unfolding signal_set_value signal_value on_result and_return typed get_of set_of
  signal_set_value-value t s v b h e =
      ground (arith, h.paired s, setter-getter (set_of s b) v b, setter-heap (set_of s b) v b)

  by_name :
      (t s : ℕ) (name other : String) (v : V) (b : DataBroker V)
      → lookup name b.signals ≡ some s
      → lookup other b.signals ≡ some s
      → IsLinked b
      → (set_value t name v b).0 ≡ returned tt
      → value t other (set_value t name v b).1 ≡ returned v
  unfolding set_value value signal on_result and_return found
  by_name t s name other v b e f h r = ground (arith, signal_set_value-value t s v b h)

  -- A value that has been written under one name of a signal is read under each of its names.
  pub set_value-value :
      (t : ℕ) (name other : String) (v : V) (b : DataBroker V)
      → Reachable b
      → lookup other b.signals ≡ lookup name b.signals
      → (set_value t name v b).0 ≡ returned tt
      → value t other (set_value t name v b).1 ≡ returned v
  unfolding set_value signal on_result found
  set_value-value t name other v b r same e = elim (Option-cases (lookup name b.signals)) [
    | (inl missing) ↦ ground arith
    | (inr (s, q)) ↦ by_name t s name other v b q (same ∙ q) (Reachable-IsLinked b r) e
  ]

  setter_ok :
      (k s : ℕ) (v : V) (b : DataBroker V)
      → signal_of k b ≡ some s
      → (run_setter (some (of_container k)) v b).0 ≡ returned tt
  unfolding run_setter container_set signal_of
  setter_ok k s v b e = ground arith

  -- What a setter that writes a container does to any other container, and to the calls.
  setter-other :
      (k j : ℕ) (v : V) (b : DataBroker V)
      → (j == k) ≡ false
      → container_get j (run_setter (some (of_container k)) v b).1 ≡ container_get j b
  unfolding run_setter container_set container_get notify raise put
  setter-other k j v b ne = ground arith

  setter-calls :
      (k s : ℕ) (x : Signal) (v : V) (b : DataBroker V)
      → event_of k b ≡ some s
      → b.heap s ≡ some x
      → (run_setter (some (of_container k)) v b).1.calls
        ≡ b.calls ++ map (λ f. (f, v)) x.value_changed_event
  unfolding run_setter container_set notify raise put event_of
  setter-calls k s x v b e h = ground arith

  getter-other :
      (s s' k : ℕ) (a : Option Accessor) (v : V) (b : DataBroker V)
      → IsLinked b
      → (s == s') ≡ false
      → get_of s b ≡ some (of_container k)
      → get_of s' b ≡ a
      → run_getter a (run_setter (some (of_container k)) v b).1 ≡ run_getter a b
  unfolding run_getter run_setter container_set container_get notify raise put
  getter-other s s' k none v b h ne e f = refl
  getter-other s s' k (some (of_container j)) v b h ne e f =
      ground (arith, h.reads s k e, h.reads s' j f, setter-other k j v b)
  getter-other s s' k (some (of_variable p)) v b h ne e f = ground arith

  -- After such calls, a write of its own type to a signal that a container implements returns,
  -- calls each subscriber of the signal once, in the order of their subscription, and leaves what
  -- any other signal reads.
  pub set_value-notifies :
      (t s k : ℕ) (name : String) (x : Signal) (v : V) (b : DataBroker V)
      → Reachable b
      → lookup name b.signals ≡ some s
      → b.heap s ≡ some x
      → x.type_id ≡ t
      → x.get_value ≡ some (of_container k)
      → ((set_value t name v b).0 ≡ returned tt)
        × ((set_value t name v b).1.calls ≡ b.calls ++ map (λ f. (f, v)) x.value_changed_event)
        × ((s' t' : ℕ)
            → (s == s') ≡ false
            → signal_value t' s' (set_value t name v b).1 ≡ signal_value t' s' b)
  unfolding set_value signal signal_set_value signal_value found on_result and_return typed get_of
      set_of signal_of
  set_value-notifies t s k name x v b r e f ty a =
      let h = Reachable-IsLinked b r in
      let e₁ = h.paired s in
      let l = h.reads s k (ground arith) in
      (
        ground (arith, setter_ok k s v b l),
        ground (arith, setter-calls k s x v b (h.notifies k s l) f),
        λ s' t' ne. ground (
          arith,
          setter-heap (some (of_container k)) v b,
          getter-other s s' k (get_of s' b) v b h ne,
        ),
      )
