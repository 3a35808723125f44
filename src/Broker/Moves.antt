-- ===== src/Broker/Moves.antt =====
-- Moving a container onto another one: runtime/include/cloe/data_broker.hpp.
use cloe.Prelude.{ℕ, ◌≡◌, false, some, ◌==◌, arith}
use cloe.Broker.Types.{
  dangling, returned, thrown, of_container, Signal, BasicContainer, DataBroker, put,
}
use cloe.Broker.Results.{and_return}
use cloe.Broker.Signals.{
  destroy, move_assign, move_from, update_accessor_functions, on_signal, set_accessors,
}
use cloe.Broker.Access.{typed, signal_value, run_getter, container_get}

module _ {V : Type 0} where
  -- Moving a container onto one that implements another signal leaves the accessors of that other
  -- signal: it reads the value of the wrong container, and after the end of the container it reads
  -- what is not there.
  pub move_assign-stale :
      (k r s s' : ℕ) (x : Signal) (c d : BasicContainer V) (b : DataBroker V)
      → b.heap s ≡ some x
      → x.get_value ≡ some (of_container k)
      → b.containers k ≡ some c
      → b.containers r ≡ some d
      → d.signal ≡ some s'
      → (s == s') ≡ false
      → (k == r) ≡ false
      → (signal_value x.type_id s (move_assign k r b) ≡ returned d.value)
        × (signal_value x.type_id s (destroy k (move_assign k r b)) ≡ thrown dangling)
  unfolding move_assign destroy move_from update_accessor_functions on_signal set_accessors put
      signal_value typed run_getter container_get and_return
  move_assign-stale k r s s' x c d b e f g h i ne ne' = (ground arith, ground arith)
