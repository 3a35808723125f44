-- ===== src/Broker/Linked.antt =====
-- That accessors lead to living containers: runtime/include/cloe/data_broker.hpp.
pub mod Naming
pub mod Containers
pub mod Access
use cloe.Prelude.{
  ℕ, suc, ◌+◌, ◌≤◌, ◌≡◌, refl, Bool, true, false, not, Option, none, some, List, [], ◌∷◌, ◌++◌, map,
  String, Map, lookup, insert, lookup-insert, ◌==◌, if◌then◌else◌, is_some, str_eq, arith,
}
use cloe.Broker.Types.{
  Error, invalid_argument, out_of_range, logic_error, runtime_error, regex_error, dangling, Result,
  Done, returned, thrown, Accessor, of_container, of_variable, Signal, BasicContainer, DataBroker,
  put,
}
use cloe.Broker.Results.{and_then}
use cloe.Broker.Signals.{
  on_signal, add_name, alias, alias_regex, matching, declare_type, holds, make, declare,
  set_accessors, declare_variable, update_accessor_functions, create_container, implement, destroy,
  move_assign, move_from,
}

unfoldable pub has_name : String → List String → Bool
has_name q [] = false
has_name q (n ∷ ns) = if str_eq n q then true else has_name q ns

pub has_name-append :
    (q n : String) (ns : List String)
    → has_name q (ns ++ n ∷ []) ≡ (if str_eq n q then true else has_name q ns)
unfolding has_name
has_name-append q n [] = refl
has_name-append q n (m ∷ ms) = ground (arith, has_name-append q n ms)

abbrev pub is_bound : ℕ → Option ℕ → Bool
is_bound s none = false
is_bound s (some t) = t == s

module _ {V : Type 0} where
  -- What the signal reads, what it writes, and the signal of the container.
  unfoldable pub get_of : ℕ → DataBroker V → Option Accessor
  get_of s b = elim (b.heap s) [ none ↦ none | (some x) ↦ x.get_value ]

  unfoldable pub set_of : ℕ → DataBroker V → Option Accessor
  set_of s b = elim (b.heap s) [ none ↦ none | (some x) ↦ x.set_value ]

  unfoldable pub signal_of : ℕ → DataBroker V → Option ℕ
  signal_of k b = elim (b.containers k) [ none ↦ none | (some c) ↦ c.signal ]

  unfoldable pub names_of : ℕ → DataBroker V → List String
  names_of s b = elim (b.heap s) [ none ↦ [] | (some x) ↦ x.names ]

  unfoldable pub event_of : ℕ → DataBroker V → Option ℕ
  event_of k b = elim (b.containers k) [ none ↦ none | (some c) ↦ c.on_value_changed ]

  -- An accessor to a container is that of the container's own signal, and the signals not made yet
  -- are not there. A signal reads what it writes, and a container that has a signal raises its
  -- event. The names of a signal are the keys that lead to it.
  pub record IsLinked (b : DataBroker V) : Type 0 where
    pub reads : (s k : ℕ) → get_of s b ≡ some (of_container k) → signal_of k b ≡ some s
    pub writes : (s k : ℕ) → set_of s b ≡ some (of_container k) → signal_of k b ≡ some s
    pub fresh : (s : ℕ) → b.next_signal ≤ s → b.heap s ≡ none
    pub known : (name : String) (s : ℕ) → lookup name b.signals ≡ some s → is_some (b.heap s) ≡ true
    pub paired : (s : ℕ) → get_of s b ≡ set_of s b
    pub notifies : (k s : ℕ) → signal_of k b ≡ some s → event_of k b ≡ some s
    pub named :
        (s : ℕ) (name : String) → has_name name (names_of s b) ≡ is_bound s (lookup name b.signals)
