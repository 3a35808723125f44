-- ===== src/Broker/Linked/Containers.antt =====
-- Making, moving and ending containers keeps them linked: runtime/include/cloe/data_broker.hpp.
use cloe.Prelude.{ℕ, ◌≡◌, false, none, ◌==◌, arith}
use cloe.Broker.Types.{DataBroker, put}
use cloe.Broker.Signals.{
  on_signal, set_accessors, update_accessor_functions, create_container, destroy, move_assign,
  move_from,
}
use cloe.Broker.Linked.{get_of, set_of, signal_of, event_of, names_of, IsLinked}

module _ {V : Type 0} where
  pub destroy-IsLinked : (k : ℕ) (b : DataBroker V) → IsLinked b → IsLinked (destroy k b)
  unfolding destroy on_signal set_accessors update_accessor_functions put get_of set_of signal_of
      event_of names_of
  destroy-IsLinked k b h = record {
    reads = λ t j e. ground (arith, h.reads t j);
    writes = λ t j e. ground (arith, h.writes t j);
    fresh = λ t l. ground (arith, h.fresh t);
    paired = λ t. ground (arith, h.paired t);
    named = λ t q. ground (arith, h.named t q);
    notifies = λ k t e. ground (arith, h.notifies k t);
    known = λ q t e. ground (arith, h.known q t);
  }

  pub create_container-IsLinked :
      (initial : V) (s k : ℕ) (b : DataBroker V)
      → b.containers k ≡ none
      → IsLinked b
      → IsLinked (create_container initial s k b)
  unfolding create_container update_accessor_functions on_signal set_accessors put get_of set_of
      signal_of event_of names_of
  create_container-IsLinked initial s j b free h = record {
    reads = λ t k e. ground (arith, h.reads t k);
    writes = λ t k e. ground (arith, h.writes t k);
    fresh = λ t l. ground (arith, h.fresh t);
    paired = λ t. ground (arith, h.paired t);
    named = λ t q. ground (arith, h.named t q);
    notifies = λ k t e. ground (arith, h.notifies k t);
    known = λ q t e. ground (arith, h.known q t);
  }

  pub move_assign-IsLinked :
      (k r : ℕ) (b : DataBroker V)
      → (k == r) ≡ false
      → signal_of k b ≡ none
      → IsLinked b
      → IsLinked (move_assign k r b)
  unfolding move_assign update_accessor_functions on_signal set_accessors move_from put get_of
      set_of signal_of event_of names_of
  move_assign-IsLinked l r b ne unbound h = record {
    reads = λ t k e. ground (arith, h.reads t k);
    writes = λ t k e. ground (arith, h.writes t k);
    fresh = λ t l. ground (arith, h.fresh t);
    paired = λ t. ground (arith, h.paired t);
    named = λ t q. ground (arith, h.named t q);
    notifies = λ k t e. ground (arith, h.notifies k t, h.notifies r t);
    known = λ q t e. ground (arith, h.known q t);
  }
