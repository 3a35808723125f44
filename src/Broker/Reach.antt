-- ===== src/Broker/Reach.antt =====
-- What the users of the data broker can do with it, one call after the other:
-- runtime/include/cloe/data_broker.hpp.
use cloe.Prelude.{
  ℕ, ◌≡◌, refl, Bool, true, false, Option, none, [], String, lookup, ◌==◌, is_some, arith,
}
use cloe.Broker.Types.{Result, returned, thrown, DataBroker}
use cloe.Broker.Results.{and_then}
use cloe.Broker.Signals.{
  alias, alias_regex, declare_type, declare, declare_variable, implement, create_container, destroy,
  move_assign,
}
use cloe.Broker.Access.{container_set, set_value, subscribe, bind_signal, set_property_lua}
use cloe.Broker.Linked.{IsLinked, get_of, set_of, signal_of, names_of, has_name}
use cloe.Broker.Linked.Naming.{
  alias-IsLinked, alias_regex-IsLinked, declare-IsLinked, declare_variable-IsLinked,
  declare_type-IsLinked, declare-containers,
}
use cloe.Broker.Linked.Containers.{
  create_container-IsLinked, destroy-IsLinked, move_assign-IsLinked,
}
use cloe.Broker.Linked.Access.{
  container_set-IsLinked, set_value-IsLinked, subscribe-IsLinked, bind_signal-IsLinked,
  set_property_lua-IsLinked,
}

module _ {V : Type 0} where
  -- A broker without signals.
  abbrev pub initial : Bool → (ℕ → V) → DataBroker V
  initial lua variables = record {
    signals = [];
    heap = λ s. none;
    next_signal = 0;
    containers = λ k. none;
    variables = variables;
    lua = lua;
    bindings = [];
    lua_accessors = [];
    calls = [];
  }

  -- The calls. A pointer that is named is that of a signal, a container begins at a free address,
  -- and only a container that has no signal of its own is assigned to.
  pub data Reachable : DataBroker V → Type 0 where
    begin : (lua : Bool) (variables : ℕ → V) → Reachable (initial lua variables)
    by_alias :
        (s : ℕ) (name : String) (b : DataBroker V)
        → is_some (b.heap s) ≡ true
        → Reachable b
        → Reachable (alias s name b).1
    by_alias_regex :
        (regex : String → Option (String → Bool)) (old_name new_name : String) (b : DataBroker V)
        → Reachable b
        → Reachable (alias_regex regex old_name new_name b).1
    by_declare :
        (t : ℕ) (name : String) (b : DataBroker V) → Reachable b → Reachable (declare t name b).1
    by_declare_variable :
        (t : ℕ) (name : String) (p : ℕ) (b : DataBroker V)
        → Reachable b
        → Reachable (declare_variable t name p b).1
    by_implement :
        (v : V) (t : ℕ) (name : String) (k : ℕ) (b : DataBroker V)
        → b.containers k ≡ none
        → Reachable b
        → Reachable (implement v t name k b).1
    by_destroy : (k : ℕ) (b : DataBroker V) → Reachable b → Reachable (destroy k b)
    by_move_assign :
        (k r : ℕ) (b : DataBroker V)
        → (k == r) ≡ false
        → signal_of k b ≡ none
        → Reachable b
        → Reachable (move_assign k r b)
    by_container_set :
        (k : ℕ) (v : V) (b : DataBroker V) → Reachable b → Reachable (container_set k v b).1
    by_set_value :
        (t : ℕ) (name : String) (v : V) (b : DataBroker V)
        → Reachable b
        → Reachable (set_value t name v b).1
    by_subscribe :
        (t : ℕ) (name : String) (f : ℕ) (b : DataBroker V)
        → Reachable b
        → Reachable (subscribe t name f b).1
    by_bind_signal :
        (nobody : ℕ) (name lua_name : String) (b : DataBroker V)
        → Reachable b
        → Reachable (bind_signal nobody name lua_name b).1
    by_set_property_lua :
        (name : String) (v : V) (b : DataBroker V)
        → Reachable b
        → Reachable (set_property_lua name v b).1

  pub initial-IsLinked : (lua : Bool) (variables : ℕ → V) → IsLinked (initial lua variables)
  unfolding get_of set_of signal_of names_of has_name lookup
  initial-IsLinked lua variables = record {
    reads = λ s k e. cc;
    writes = λ s k e. cc;
    fresh = λ s l. refl;
    known = λ q s e. cc;
    paired = λ s. refl;
    named = λ s q. refl;
    notifies = λ k s e. cc;
  }

  contained-IsLinked :
      (v : V) (k : ℕ) (x : Result ℕ × DataBroker V)
      → x.1.containers k ≡ none
      → IsLinked x.1
      → IsLinked (and_then x (λ s b. (returned s, create_container v s k b))).1
  unfolding and_then
  contained-IsLinked v k (returned s, b) free h = create_container-IsLinked v s k b free h
  contained-IsLinked v k (thrown e, b) free h = h

  pub implement-IsLinked :
      (v : V) (t : ℕ) (name : String) (k : ℕ) (b : DataBroker V)
      → b.containers k ≡ none
      → IsLinked b
      → IsLinked (implement v t name k b).1
  unfolding implement declare_type
  implement-IsLinked v t name k b free h =
      let b₁ = declare_type t b in
      contained-IsLinked v k (declare t name b₁) (ground (arith, declare-containers t name b₁))
        (declare-IsLinked t name b₁ (declare_type-IsLinked t b h))

  -- In whatever order the broker and the containers are used, the accessors of the signals lead to
  -- the living containers of these signals.
  pub Reachable-IsLinked : (b : DataBroker V) → Reachable b → IsLinked b
  Reachable-IsLinked b (begin lua variables) = initial-IsLinked lua variables
  Reachable-IsLinked b (by_alias s name b₀ live r) =
      alias-IsLinked s name b₀ live (Reachable-IsLinked b₀ r)
  Reachable-IsLinked b (by_alias_regex regex old_name new_name b₀ r) =
      alias_regex-IsLinked regex old_name new_name b₀ (Reachable-IsLinked b₀ r)
  Reachable-IsLinked b (by_declare t name b₀ r) =
      declare-IsLinked t name b₀ (Reachable-IsLinked b₀ r)
  Reachable-IsLinked b (by_declare_variable t name p b₀ r) =
      declare_variable-IsLinked t name p b₀ (Reachable-IsLinked b₀ r)
  Reachable-IsLinked b (by_implement v t name k b₀ free r) =
      implement-IsLinked v t name k b₀ free (Reachable-IsLinked b₀ r)
  Reachable-IsLinked b (by_destroy k b₀ r) = destroy-IsLinked k b₀ (Reachable-IsLinked b₀ r)
  Reachable-IsLinked b (by_move_assign k r' b₀ ne unbound r) =
      move_assign-IsLinked k r' b₀ ne unbound (Reachable-IsLinked b₀ r)
  Reachable-IsLinked b (by_container_set k v b₀ r) =
      container_set-IsLinked k v b₀ (Reachable-IsLinked b₀ r)
  Reachable-IsLinked b (by_set_value t name v b₀ r) =
      set_value-IsLinked t name v b₀ (Reachable-IsLinked b₀ r)
  Reachable-IsLinked b (by_subscribe t name f b₀ r) =
      subscribe-IsLinked t name f b₀ (Reachable-IsLinked b₀ r)
  Reachable-IsLinked b (by_bind_signal nobody name lua_name b₀ r) =
      bind_signal-IsLinked nobody name lua_name b₀ (Reachable-IsLinked b₀ r)
  Reachable-IsLinked b (by_set_property_lua name v b₀ r) =
      set_property_lua-IsLinked name v b₀ (Reachable-IsLinked b₀ r)
