-- ===== src/Broker/Names.antt =====
-- The names of the signals: runtime/include/cloe/data_broker.hpp.
use cloe.Prelude.{
  ℕ, ◌≡◌, ◌↔◌, true, Option, some, String, lookup, lookup-insert, if◌then◌else◌, is_some, str_eq,
  arith,
}
use cloe.Broker.Types.{out_of_range, invalid_argument, returned, thrown, DataBroker, put}
use cloe.Broker.Signals.{alias, on_signal, add_name, declare, declare_type, make}
use cloe.Broker.Linked.{has_name, names_of, is_bound}
use cloe.Broker.Reach.{Reachable, Reachable-IsLinked}

bound_iff : (s : ℕ) (o : Option ℕ) → (o ≡ some s) ↔ (is_bound s o ≡ true)
bound_iff s o = ground arith

module _ {V : Type 0} where
  -- After whatever calls, except for a move onto a container that has a signal, a name leads to a
  -- signal if and only if it is among the names that the signal itself keeps.
  pub Reachable-named :
      (name : String) (s : ℕ) (b : DataBroker V)
      → Reachable b
      → (lookup name b.signals ≡ some s) ↔ (has_name name (names_of s b) ≡ true)
  Reachable-named name s b r =
      let e = (Reachable-IsLinked b r).named s name in
      ground (arith, bound_iff s (lookup name b.signals))

  -- Declaring fails just where the name is empty or taken, and then no signal and no name is new;
  -- otherwise the name leads to the new signal, and every other name to what it led to.
  pub declare-lookup :
      (t : ℕ) (name other : String) (b : DataBroker V)
      → let taken = is_some (lookup name b.signals) in
        ((declare t name b).0 ≡ (
          if str_eq name ""
          then thrown invalid_argument
          else if taken
          then thrown out_of_range
          else returned b.next_signal))
        × (lookup other (declare t name b).1.signals ≡ (
            if str_eq name ""
            then lookup other b.signals
            else if taken
            then lookup other b.signals
            else if str_eq name other
            then some b.next_signal
            else lookup other b.signals))
  unfolding declare alias declare_type make on_signal add_name put
  declare-lookup t name other b =
      (ground arith, ground (arith, lookup-insert name other b.next_signal b.signals))
