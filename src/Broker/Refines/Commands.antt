-- ===== src/Broker/Refines/Commands.antt =====
-- Any sequence of calls of the data broker, against the registry:
-- runtime/include/cloe/data_broker.hpp.
use cloe.Prelude.{
  ℕ, ◌≡◌, refl, ap, ap₂, subst, Bool, true, Option, none, some, List, [], ◌∷◌, String, lookup,
  is_some,
}
use cloe.Broker.Types.{out_of_range, Result, returned, DataBroker}
use cloe.Broker.Results.{on_result, and_return, found}
use cloe.Broker.Access.{signal, value, set_value, subscribe, signal_value}
use cloe.Broker.Reach.{initial, initial-IsLinked}
use cloe.Broker.Spec.{
  Registry, Command, implement_as, alias_to, subscribe_to, write, read, of_signal, of_done,
  of_value, typed_cell, specified, answered, run_specified, run_broker,
}
use cloe.Broker.Refines.{
  cell_of, Refines, value-Refines, write-Refines, subscribe-Refines, alias-Refines,
  implement-Refines,
}

module _ {V : Type 0} where
  -- Calls by name, for what the name leads to.
  by_option :
      {A : Type 0} (name : String) (k : ℕ) (b : DataBroker V) (a : Registry V) (o : Option ℕ)
      → (f : ℕ → Result A × DataBroker V) (g : ℕ → Result A × Registry V) → Refines k b a
      → lookup name b.signals ≡ o
      → ((s : ℕ) → is_some (b.heap s) ≡ true → ((f s).0 ≡ (g s).0) × Refines k (f s).1 (g s).1)
      → ((on_result (found out_of_range o) b f).0 ≡ (on_result (found out_of_range o) a g).0)
        × Refines k
            (on_result (found out_of_range o) b f).1
            (on_result (found out_of_range o) a g).1
  unfolding on_result found
  by_option name k b a none f g h e each = (refl, h)
  by_option name k b a (some s) f g h e each = each s (h.linked.known name s e)

  by_name-Refines :
      {A : Type 0} (name : String) (k : ℕ) (b : DataBroker V) (a : Registry V)
      → (f : ℕ → Result A × DataBroker V) (g : ℕ → Result A × Registry V) → Refines k b a
      → ((s : ℕ) → is_some (b.heap s) ≡ true → ((f s).0 ≡ (g s).0) × Refines k (f s).1 (g s).1)
      → ((on_result (signal name b) b f).0
          ≡ (on_result (found out_of_range (lookup name a.bound)) a g).0)
        × Refines k
            (on_result (signal name b) b f).1
            (on_result (found out_of_range (lookup name a.bound)) a g).1
  unfolding signal
  by_name-Refines name k b a f g h each =
      subst
        (λ m.
          ((on_result (found out_of_range (lookup name b.signals)) b f).0
            ≡ (on_result (found out_of_range (lookup name m)) a g).0)
          × Refines k (on_result (found out_of_range (lookup name b.signals)) b f).1
              (on_result (found out_of_range (lookup name m)) a g).1)
        h.bound (by_option name k b a (lookup name b.signals) f g h refl each)

  read_by :
      (t k : ℕ) (b : DataBroker V) (a : Registry V) (o : Option ℕ)
      → Refines k b a
      → and_return (found out_of_range o) (λ s. signal_value t s b)
        ≡ and_return
            (found out_of_range o)
            (λ s. and_return (typed_cell t s a) (λ c. returned c.value))
  unfolding and_return found
  read_by t k b a none h = refl
  read_by t k b a (some s) h = value-Refines t s k b a h

  read-Refines :
      (t : ℕ) (name : String) (k : ℕ) (b : DataBroker V) (a : Registry V)
      → Refines k b a
      → value t name b
        ≡ and_return
            (found out_of_range (lookup name a.bound))
            (λ s. and_return (typed_cell t s a) (λ c. returned c.value))
  unfolding value signal
  read-Refines t name k b a h =
      subst
        (λ m.
          and_return (found out_of_range (lookup name b.signals)) (λ s. signal_value t s b)
          ≡ and_return (found out_of_range (lookup name m))
              (λ s. and_return (typed_cell t s a) (λ c. returned c.value)))
        h.bound (read_by t k b a (lookup name b.signals) h)

  -- One call: the broker gives the answer of the registry, and stands for it again.
  answered-Refines :
      (c : Command V) (k : ℕ) (b : DataBroker V) (a : Registry V)
      → Refines k b a
      → ((answered c (k, b)).0 ≡ (specified c a).0)
        × Refines (answered c (k, b)).1.0 (answered c (k, b)).1.1 (specified c a).1
  unfolding answered specified signal subscribe set_value value
  answered-Refines (implement_as v t name) k b a h =
      let (e, r) = implement-Refines v t k name b a h in (ap of_signal e, r)
  answered-Refines (alias_to name new_name) k b a h =
      let (e, r) =
        by_name-Refines name k b a _ _ h (λ s live. alias-Refines s k new_name b a h live) in
      (ap of_signal e, r)
  answered-Refines (subscribe_to t name f) k b a h =
      let (e, r) = by_name-Refines name k b a _ _ h (λ s live. subscribe-Refines t s f k b a h) in
      (ap of_done e, r)
  answered-Refines (write t name v) k b a h =
      let (e, r) = by_name-Refines name k b a _ _ h (λ s live. write-Refines t s k v b a h) in
      (ap of_done e, r)
  answered-Refines (read t name) k b a h = (ap of_value (read-Refines t name k b a h), h)

  -- From a broker and a registry of cells that correspond, as two new ones do: for a client that
  -- makes, names, subscribes to, writes and reads signals by name, the broker with its shared
  -- signals, containers and accessors answers any sequence of calls as the registry does.
  pub run_broker-Refines :
      (cs : List (Command V)) (k : ℕ) (b : DataBroker V) (a : Registry V)
      → Refines k b a
      → run_broker cs (k, b) ≡ run_specified cs a
  unfolding run_broker run_specified
  run_broker-Refines [] k b a h = refl
  run_broker-Refines (c ∷ cs) k b a h =
      let (e, r) = answered-Refines c k b a h in
      let w = (answered c (k, b)).1 in
      ap₂ (λ x xs. x ∷ xs) e (run_broker-Refines cs w.0 w.1 (specified c a).1 r)

  abbrev pub empty : Registry V
  empty = record { bound = []; cells = λ s. none; next = 0; calls = [] }

  pub initial-Refines : (lua : Bool) (variables : ℕ → V) → Refines 0 (initial lua variables) empty
  unfolding cell_of
  initial-Refines lua variables = record {
    linked = initial-IsLinked lua variables;
    bound = refl;
    next = refl;
    calls = refl;
    cells = λ s. refl;
    implemented = λ s. refl;
    free = λ j l. refl;
  }
