-- ===== src/Stack/Examples.antt =====
-- Examples of the properties of a stack and its vehicles.
use cloe.Prelude.{ℕ, ◌≡◌, ◌⊎◌, refl, none, some, [], ◌∷◌, Map, lookup, insert, length}
use cloe.Engine.Vehicles.{
  by_index, from_vehicle, VehicleConf, configured, aborted, unresolved, Garage, resolve, pass,
  report, new_vehicle, configured_from, count_made,
}
use cloe.Stack.Consistency.{
  Names, Stack, check_consistency, reserve, check, check_has, and_check, check_all, check_source,
  check_vehicle, check_vehicles, check_controllers,
}
use cloe.Stack.Resolved.{from_itself}
use cloe.Stack.OnePass.{build, check_consistency-resolve}

abbrev garage : Garage ℕ
garage = record {
  get_by_name = λ sim name. some 1;
  get_by_index = λ sim n. some n;
  prepare = λ c v. some v;
}

abbrev ego : VehicleConf
ego = record { name = "ego"; source = by_index "vtd" 3; components = "radar" ∷ [] }

abbrev twin : VehicleConf
twin = record { name = "twin"; source = from_vehicle "ego"; components = [] }

abbrev two_vehicles : Stack
two_vehicles = record {
  reserved_ids = "_" ∷ "cloe" ∷ "sim" ∷ "simulation" ∷ [];
  simulators = "vtd" ∷ [];
  vehicles = ego ∷ twin ∷ [];
  controllers = record { name = "acc"; vehicle = "ego" } ∷ [];
}

check_consistency-resolve_example :
    ((build garage (ego ∷ twin ∷ []) [] ≡ none) × (resolve garage 2 (ego ∷ twin ∷ []) [] ≡ aborted))
    ⊎ ((vs : Map ℕ) × (build garage (ego ∷ twin ∷ []) [] ≡ some vs)
        × (resolve garage 2 (ego ∷ twin ∷ []) [] ≡ configured vs)
        × (count_made (ego ∷ twin ∷ []) vs ≡ length (ego ∷ twin ∷ [])))
unfolding check_consistency reserve check check_has and_check check_all check_source check_vehicle
    check_vehicles check_controllers lookup insert from_itself
check_consistency-resolve_example =
    check_consistency-resolve garage two_vehicles _ refl (refl, (refl, tt))

-- In the other order the resolution takes two passes.
two_passes : resolve garage 3 (twin ∷ ego ∷ []) [] ≡ configured (("ego", 3) ∷ ("twin", 3) ∷ [])
unfolding resolve pass report new_vehicle configured_from lookup insert
two_passes = refl

-- A vehicle that is said to be made from itself passes the check, and is never made.
abbrev narcissus : VehicleConf
narcissus = record { name = "ego"; source = from_vehicle "ego"; components = [] }

abbrev mirror : Stack
mirror = record { reserved_ids = []; simulators = []; vehicles = narcissus ∷ []; controllers = [] }

mirror_consistent : (ns : Names) × (check_consistency mirror ≡ some ns)
unfolding check_consistency reserve check check_has and_check check_all check_source check_vehicle
    check_vehicles check_controllers lookup insert
mirror_consistent = (_, refl)

mirror_unresolved : resolve garage 2 (narcissus ∷ []) [] ≡ unresolved "ego" "ego"
unfolding resolve pass report new_vehicle configured_from lookup insert
mirror_unresolved = refl
