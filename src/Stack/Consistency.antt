-- ===== src/Stack/Consistency.antt =====
-- The checks of the names in a stack: stack/src/cloe/stack.cpp.
use cloe.Prelude.{
  Bool, true, false, Option, none, some, List, [], ◌∷◌, String, Map, lookup, insert, if◌then◌else◌,
  is_some,
}
use cloe.Engine.Vehicles.{Prototype, by_name, by_index, from_vehicle, VehicleConf}

pub data EntityType : Type 0 where
  reserved simulator vehicle component controller : EntityType

-- `ns[key] != type`
abbrev pub same_type : EntityType → EntityType → Bool
same_type reserved reserved = true
same_type simulator simulator = true
same_type vehicle vehicle = true
same_type component component = true
same_type controller controller = true
same_type a b = false

pub record ControllerConf : Type 0 where
  pub name : String
  pub vehicle : String

-- The names are those that an entity has, its own or that of its binding.
pub record Stack : Type 0 where
  pub reserved_ids : List String
  pub simulators : List String
  pub vehicles : List VehicleConf
  pub controllers : List ControllerConf

abbrev pub Names : Type 0
Names = Map EntityType

unfoldable pub reserve : List String → Names → Names
reserve [] ns = ns
reserve (x ∷ xs) ns = reserve xs (insert x reserved ns)

-- `none` is the `Error`.
unfoldable pub check : EntityType → String → Names → Option Names
check type key ns = if is_some (lookup key ns) then none else some (insert key type ns)

unfoldable pub check_has : EntityType → String → Names → Bool
check_has type key ns = elim (lookup key ns) [ none ↦ false | (some t) ↦ same_type t type ]

unfoldable pub and_check : Option Names → (Names → Option Names) → Option Names
and_check none f = none
and_check (some ns) f = f ns

unfoldable pub check_all : EntityType → List String → Names → Option Names
unfolding check and_check
check_all type [] ns = some ns
check_all type (x ∷ xs) ns = and_check (check type x ns) (check_all type xs)

unfoldable pub check_source : Prototype → Names → Bool
unfolding check_has
check_source (by_name sim name) ns = check_has simulator sim ns
check_source (by_index sim n) ns = check_has simulator sim ns
check_source (from_vehicle name) ns = check_has vehicle name ns

unfoldable pub check_vehicle : VehicleConf → Names → Option Names
unfolding check and_check check_source check_all
check_vehicle x ns =
    and_check (check vehicle x.name ns)
      (λ ns₁. if check_source x.source ns₁ then check_all component x.components ns₁ else none)

unfoldable pub check_vehicles : List VehicleConf → Names → Option Names
unfolding check_vehicle and_check
check_vehicles [] ns = some ns
check_vehicles (x ∷ xs) ns = and_check (check_vehicle x ns) (check_vehicles xs)

unfoldable pub check_controllers : List ControllerConf → Names → Option Names
unfolding check and_check check_has
check_controllers [] ns = some ns
check_controllers (x ∷ xs) ns =
    and_check (check controller x.name ns)
      (λ ns₁. if check_has vehicle x.vehicle ns₁ then check_controllers xs ns₁ else none)

unfoldable pub check_consistency : Stack → Option Names
unfolding reserve check_all check_vehicles check_controllers and_check
check_consistency s =
    and_check (check_all simulator s.simulators (reserve s.reserved_ids []))
      (λ ns. and_check (check_vehicles s.vehicles ns) (check_controllers s.controllers))
