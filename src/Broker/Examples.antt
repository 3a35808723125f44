-- ===== src/Broker/Examples.antt =====
-- Examples of the properties of the data broker, on signals of numbers.
use cloe.Prelude.{
  ℕ, ◌≡◌, ◌≢◌, ◌↔◌, refl, true, false, some, List, [], ◌∷◌, ◌++◌, lookup, insert, ◌==◌,
}
use cloe.Broker.Types.{
  dangling, returned, thrown, of_container, Signal, BasicContainer, DataBroker, put,
}
use cloe.Broker.Results.{and_then, found, on_result}
use cloe.Broker.Signals.{
  implement, declare, declare_type, alias, make, create_container, update_accessor_functions,
  on_signal, set_accessors, add_name, destroy, move_assign,
}
use cloe.Broker.Access.{
  value, set_value, subscribe, signal, typed, signal_value, signal_subscribe, add_subscriber,
}
use cloe.Broker.Linked.{has_name, names_of}
use cloe.Broker.Reach.{Reachable, begin, by_alias, by_implement, by_subscribe, initial}
use cloe.Broker.Names.{Reachable-named}
use cloe.Broker.Writes.{value-ne-dangling, set_value-notifies}
use cloe.Broker.Moves.{move_assign-stale}
use cloe.Broker.Spec.{
  Command, implement_as, alias_to, subscribe_to, write, read, run_broker, run_specified,
}
use cloe.Broker.Refines.Commands.{run_broker-Refines, initial-Refines, empty}

abbrev unset : ℕ → ℕ
unset p = 0

abbrev fresh : DataBroker ℕ
fresh = initial false unset

-- A speed in the container 0, and a distance in the container 1.
abbrev speeding : DataBroker ℕ
speeding = (implement 0 1 "speed" 0 fresh).1

abbrev with_distance : DataBroker ℕ
with_distance = (implement 5 1 "distance" 1 speeding).1

abbrev renamed : DataBroker ℕ
renamed = (alias 0 "ego.speed" with_distance).1

abbrev watched : DataBroker ℕ
watched = (subscribe 1 "speed" 7 renamed).1

watched-Reachable : Reachable watched
unfolding implement declare declare_type alias make create_container update_accessor_functions
    on_signal set_accessors add_name put and_then lookup insert
watched-Reachable = by_subscribe 1 "speed" 7 renamed (
    by_alias 0 "ego.speed" with_distance refl (
      by_implement 5 1 "distance" 1 speeding refl
        (by_implement 0 1 "speed" 0 fresh refl (begin false unset))))

abbrev speed_signal : Signal
speed_signal = record {
  names = "speed" ∷ "ego.speed" ∷ [];
  type_id = 1;
  get_value = some (of_container 0);
  set_value = some (of_container 0);
  value_changed_event = 7 ∷ [];
}

value-ne-dangling_example :
    (value 1 "ego.speed" watched ≢ thrown dangling)
    × ((set_value 1 "ego.speed" 30 watched).0 ≢ thrown dangling)
value-ne-dangling_example = value-ne-dangling 1 "ego.speed" 30 watched watched-Reachable

set_value-notifies_example :
    ((set_value 1 "ego.speed" 30 watched).0 ≡ returned tt)
    × ((set_value 1 "ego.speed" 30 watched).1.calls ≡ watched.calls ++ (7, 30) ∷ [])
    × ((s t : ℕ)
        → (0 == s) ≡ false
        → signal_value t s (set_value 1 "ego.speed" 30 watched).1 ≡ signal_value t s watched)
unfolding implement declare declare_type alias make create_container update_accessor_functions
    on_signal set_accessors add_name put and_then lookup insert subscribe signal found on_result
    typed signal_subscribe add_subscriber
set_value-notifies_example =
    set_value-notifies 1 0 0 "ego.speed" speed_signal 30 watched watched-Reachable refl refl refl
      refl

Reachable-named_example :
    (lookup "ego.speed" watched.signals ≡ some 0)
    ↔ (has_name "ego.speed" (names_of 0 watched) ≡ true)
Reachable-named_example = Reachable-named "ego.speed" 0 watched watched-Reachable

abbrev speed_container : BasicContainer ℕ
speed_container = record { value = 0; on_value_changed = some 0; signal = some 0 }

abbrev distance_container : BasicContainer ℕ
distance_container = record { value = 5; on_value_changed = some 1; signal = some 1 }

-- The container of the distance is moved onto that of the speed.
move_assign-stale_example :
    (signal_value 1 0 (move_assign 0 1 watched) ≡ returned 5)
    × (signal_value 1 0 (destroy 0 (move_assign 0 1 watched)) ≡ thrown dangling)
unfolding implement declare declare_type alias make create_container update_accessor_functions
    on_signal set_accessors add_name put and_then lookup insert subscribe signal found on_result
    typed signal_subscribe add_subscriber
move_assign-stale_example =
    move_assign-stale 0 1 0 1 speed_signal speed_container distance_container watched refl refl refl
      refl refl refl refl

abbrev session : List (Command ℕ)
session =
    implement_as 0 1 "speed"
    ∷ alias_to "speed" "ego.speed"
    ∷ subscribe_to 1 "speed" 7
    ∷ write 1 "ego.speed" 30
    ∷ read 1 "speed"
    ∷ read 2 "speed"
    ∷ implement_as 0 1 "speed"
    ∷ []

run_broker-Refines_example : run_broker session (0, fresh) ≡ run_specified session empty
run_broker-Refines_example = run_broker-Refines session 0 fresh empty (initial-Refines false unset)
