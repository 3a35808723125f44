-- ===== src/Models/Examples.antt =====
-- Examples of the properties of the model utilities.
use cloe.Prelude.{ℕ, ◌≡◌, refl, Bool, true, false, none, some, [], ◌∷◌, ◌==◌, arith}
use cloe.Models.Actuation.{ActuationState, is_valid, differ, is_consistent}
use cloe.Prelude.{◌+◌, ◌⊎◌, List, All, if◌then◌else◌}
use cloe.Prelude.Texts.{Text}
use cloe.Models.Vehicle.{
  run_until, distinct_ids, ids_of, process, process_from, contains, Distinct, process-once,
}
use cloe.Models.Vehicle.Components.{Vehicle, connect, connect-once}
use cloe.Models.UidTracker.{
  UniqueIdTracker, make, assign, next_cycle, cycles, IsPartition, begin, by_assign, by_next_cycle,
  Reachable-IsPartition, assign-cycles,
}

abbrev both_steer : ActuationState ℕ
both_steer = record {
  aeb_active = false;
  fct_control = 2;
  acceleration = none;
  steering_angle = some 3;
  steering_torque = some 5;
}

abbrev no_double_negative : ℕ → Bool
no_double_negative n = false

abbrev equal : ℕ → ℕ → Bool
equal a b = a == b

-- A steering angle and a torque at the same time count as consistent.
both_steer_consistent : is_consistent no_double_negative equal both_steer ≡ some true
unfolding is_consistent is_valid differ
both_steer_consistent = refl

-- Ids from 4 to 6, with one given out already.
abbrev tracker : UniqueIdTracker
tracker = record { ttl = 2; assigned = []; free = 4 ∷ 5 ∷ 6 ∷ [] }

tracker_made : make 4 6 2 ≡ some tracker
unfolding make
tracker_made = refl

Reachable-IsPartition_example : IsPartition 4 6 (next_cycle (assign 77 tracker).1).0
Reachable-IsPartition_example =
    Reachable-IsPartition 4 6 2 (next_cycle (assign 77 tracker).1).0
      (by_next_cycle (assign 77 tracker).1 (by_assign 77 tracker (begin tracker tracker_made)))

assign-cycles_example : (assign 77 (cycles 2 (assign 77 tracker).1)).0 ≡ some 4
unfolding assign
assign-cycles_example = assign-cycles 77 2 4 tracker refl (omega arith)

-- Two names for one component, and a second component that is late: it is asked at most once.
abbrev two_names : List (Text × ℕ)
two_names = ((97 ∷ []), 1) ∷ ((98 ∷ []), 1) ∷ ((99 ∷ []), 2) ∷ []

abbrev second_late : ℕ → ℕ → ℕ × ℕ
second_late id w = if id == 2 then (4, w + 1) else (5, w + 1)

process-once_example :
    (process second_late 5 two_names 0 ≡ run_until second_late 5 (distinct_ids two_names []) 0)
    × Distinct (distinct_ids two_names [])
    × ((id : ℕ) → contains id (distinct_ids two_names []) ≡ contains id (ids_of two_names))
    × Distinct (process second_late 5 two_names 0).calls
process-once_example = process-once second_late 5 two_names 0

processed_twice : (process second_late 5 two_names 0).world ≡ 2
unfolding process process_from contains
processed_twice = refl

-- A vehicle with one component under two names; what is connected is told by a function.
abbrev doubly_named : Vehicle
doubly_named = record {
  id = 1;
  name = 118 ∷ [];
  components = ((97 ∷ []), 7) ∷ ((98 ∷ []), 7) ∷ [];
  is_connected = false;
}

abbrev told : ℕ → (ℕ → Bool) → Bool
told id w = w id

abbrev plug_in : ℕ → (ℕ → Bool) → (ℕ → Bool) × Bool
plug_in id w = ((λ k. if k == id then true else w k), true)

plugged : (id : ℕ) (w : ℕ → Bool) → (plug_in id w).1 ≡ true → told id (plug_in id w).0 ≡ true
plugged id w e = ground arith

still_plugged :
    (id other : ℕ) (w : ℕ → Bool) → told other w ≡ true → told other (plug_in id w).0 ≡ true
still_plugged id other w h = ground (arith, h)

abbrev unplugged : ℕ → Bool
unplugged k = false

connect-once_example :
    Distinct (connect told plug_in doubly_named unplugged).1.calls
    × ((((connect told plug_in doubly_named unplugged).1.returned ≡ false)
          × ((connect told plug_in doubly_named unplugged).0 ≡ doubly_named))
        ⊎ (((connect told plug_in doubly_named unplugged).0.is_connected ≡ true)
            × All
                (λ c. told c.1 (connect told plug_in doubly_named unplugged).1.world ≡ true)
                doubly_named.components))
connect-once_example = connect-once told plug_in plugged still_plugged doubly_named unplugged
