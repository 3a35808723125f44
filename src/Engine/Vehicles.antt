-- ===== src/Engine/Vehicles.antt =====
-- The vehicles of Connect, which may be made from one another:
-- engine/src/simulation_state_connect.cpp and stack/include/cloe/stack.hpp.
pub mod Termination
use cloe.Prelude.{
  ℕ, zero, suc, ◌+◌, ◌≤◌, ◌<◌, ◌≡◌, ◌≢◌, refl, Bool, true, false, not, ◌&&◌, Option, none, some,
  List, [], ◌∷◌, String, Map, lookup, insert, lookup-insert, length, ◌==◌, leb, if◌then◌else◌,
  is_some, str_eq, eq_iff, arith, value_or,
}

-- A vehicle of a simulator, by its name or its index, or the vehicle of another configuration.
pub data Prototype : Type 0 where
  by_name : String → String → Prototype
  by_index : String → ℕ → Prototype
  from_vehicle : String → Prototype

pub record VehicleConf : Type 0 where
  pub name : String
  pub source : Prototype
  pub components : List String

pub data Attempt (V : Type 0) : Type 0 where
  made : V → Attempt V
  -- The null pointer, and the `ModelError`.
  waiting failed : Attempt V

pub data Outcome (V : Type 0) : Type 0 where
  configured : Map V → Outcome V
  -- `return ABORT` and the `ModelError` of a dependency that cannot be resolved.
  aborted : Outcome V
  unresolved : String → String → Outcome V
  -- The assertion that what is missing depends on a vehicle, and the loop at its end of fuel.
  assertion_failed out_of_fuel : Outcome V

-- The vehicles of the simulators, and the clone of a prototype with its components made, connected
-- and enrolled. `none` is a vehicle that is not there, or a `ModelError`.
pub record Garage (V : Type 0) : Type 0 where
  pub get_by_name : String → String → Option V
  pub get_by_index : String → ℕ → Option V
  pub prepare : VehicleConf → V → Option V

-- The report of the first configuration that has no vehicle; `none` where there is none such.
unfoldable pub report : {V : Type 0} → List VehicleConf → Map V → Option (Outcome V)
report [] vs = none
report (c ∷ cs) vs =
    let rest = report cs vs in
    if is_some (lookup c.name vs) then rest else elim c.source [
      | (from_vehicle name) ↦ some (unresolved c.name name)
      | _ ↦ some assertion_failed
    ]

module _ {V : Type 0} (g : Garage V) where
  unfoldable pub configured_from : VehicleConf → Option V → Attempt V
  configured_from c none = failed
  configured_from c (some v) = elim (g.prepare c v) [ none ↦ failed | (some x) ↦ made x ]

  unfoldable pub new_vehicle : VehicleConf → Prototype → Map V → Attempt V
  unfolding configured_from
  new_vehicle c (by_name sim name) vs = configured_from c (g.get_by_name sim name)
  new_vehicle c (by_index sim n) vs = configured_from c (g.get_by_index sim n)
  new_vehicle c (from_vehicle name) vs = elim (lookup name vs) [
    | none ↦ waiting
    | (some v) ↦ configured_from c (some v)
  ]

  -- Once through all the configurations; `none` is an abort.
  unfoldable pub pass : List VehicleConf → Map V → Option (Map V)
  unfolding new_vehicle
  pass [] vs = some vs
  pass (c ∷ cs) vs =
      let skipped = pass cs vs in
      if is_some (lookup c.name vs) then skipped else elim (new_vehicle c c.source vs) [
        | (made v) ↦ pass cs (insert c.name v vs)
        | waiting ↦ skipped
        | failed ↦ none
      ]

  unfoldable pub resolve : ℕ → List VehicleConf → Map V → Outcome V
  unfolding pass report
  resolve zero cs vs = out_of_fuel
  resolve (suc fuel) cs vs = if length vs == length cs then configured vs else elim (pass cs vs) [
    | none ↦ aborted
    | (some vs₁) ↦
        let again = resolve fuel cs vs₁ in
        if length vs₁ == length vs then value_or (report cs vs₁) again else again
  ]

-- How many configurations have a vehicle, and how often a name is that of a configuration.
abbrev pub one_if : Bool → ℕ
one_if true = 1
one_if false = 0

unfoldable pub count_made : {V : Type 0} → List VehicleConf → Map V → ℕ
count_made [] vs = 0
count_made (c ∷ cs) vs = one_if (is_some (lookup c.name vs)) + count_made cs vs

unfoldable pub count_named : String → List VehicleConf → ℕ
count_named name [] = 0
count_named name (c ∷ cs) = one_if (str_eq name c.name) + count_named name cs
