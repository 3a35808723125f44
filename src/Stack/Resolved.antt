-- ===== src/Stack/Resolved.antt =====
-- That the vehicles of a checked stack are made in one pass: stack/src/cloe/stack.cpp and
-- engine/src/simulation_state_connect.cpp.
use cloe.Prelude.{
  ◌≤◌, ◌≡◌, ◌≢◌, inl, inr, refl, Bool, true, false, Option, none, some, List, [], ◌∷◌, String,
  lookup, insert, lookup-insert, is_some, str_eq, eq_iff, arith, Option-cases,
}
use cloe.Engine.Vehicles.{from_vehicle, VehicleConf, count_named}
use cloe.Stack.Consistency.{
  EntityType, reserved, simulator, vehicle, component, Stack, Names, reserve, check, check_has,
  and_check, check_all, check_source, check_vehicle, check_vehicles, check_consistency,
}

-- Components take the name of no vehicle, and no name is given up.
components-keep :
    (xs : List String) (q : String) (ns ns₁ : Names)
    → check_all component xs ns ≡ some ns₁
    → (is_some (lookup q ns) ≡ true → lookup q ns₁ ≡ lookup q ns)
      × (lookup q ns₁ ≡ some vehicle → lookup q ns ≡ some vehicle)
unfolding check_all and_check check
components-keep [] q ns ns₁ e = (λ h. ground arith, λ h. ground arith)
components-keep (x ∷ xs) q ns ns₁ e = (
  λ h. ground (
    arith,
    components-keep xs q (insert x component ns) ns₁,
    lookup-insert x q component ns,
    eq_iff x q,
  ),
  λ h. ground (
    arith,
    components-keep xs q (insert x component ns) ns₁,
    lookup-insert x q component ns,
    eq_iff x q,
  ),
)

-- What has been checked of one vehicle.
pub record Checked (x : VehicleConf) (ns ns₁ : Names) : Type 0 where
  pub new : lookup x.name ns ≡ none
  pub listed : lookup x.name ns₁ ≡ some vehicle
  pub kept : (q : String) → is_some (lookup q ns) ≡ true → lookup q ns₁ ≡ lookup q ns
  pub only :
      (q : String)
      → lookup q ns₁ ≡ some vehicle
      → str_eq x.name q ≡ false
      → lookup q ns ≡ some vehicle
  pub source :
      (q : String)
      → x.source ≡ from_vehicle q
      → str_eq x.name q ≡ false
      → lookup q ns ≡ some vehicle

check_vehicle-Checked :
    (x : VehicleConf) (ns ns₁ : Names) → check_vehicle x ns ≡ some ns₁ → Checked x ns ns₁
unfolding check_vehicle and_check check check_source check_has
check_vehicle-Checked x ns ns₁ e =
    let ns₀ = insert x.name vehicle ns in
    let at = λ (q : String). lookup-insert x.name q vehicle ns in
    let keep = λ (q : String) (p : check_all component x.components ns₀ ≡ some ns₁).
      components-keep x.components q ns₀ ns₁ p in
    record {
      new = ground arith;
      listed = ground (arith, at x.name, keep x.name, eq_iff x.name x.name);
      kept = λ q h. ground (arith, at q, keep q, eq_iff x.name q);
      only = λ q h n. ground (arith, at q, keep q);
      source = λ q h n. ground (arith, at q);
    }

pub vehicles_on :
    (x : VehicleConf) (xs : List VehicleConf) (ns ns₁ : Names)
    → check_vehicles (x ∷ xs) ns ≡ some ns₁
    → (ns₀ : Names) × Checked x ns ns₀ × (check_vehicles xs ns₀ ≡ some ns₁)
unfolding check_vehicles
vehicles_on x xs ns ns₁ e = elim (Option-cases (check_vehicle x ns)) [
  | (inl n) ↦ absurd (ground (arith, n))
  | (inr (ns₀, n)) ↦ (ns₀, check_vehicle-Checked x ns ns₀ n, ground (arith, n))
]

-- No name that is taken is that of a vehicle to come.
taken-count_named :
    (xs : List VehicleConf) (q : String) (ns ns₁ : Names)
    → check_vehicles xs ns ≡ some ns₁
    → is_some (lookup q ns) ≡ true
    → count_named q xs ≡ 0
unfolding count_named
taken-count_named [] q ns ns₁ e h = refl
taken-count_named (x ∷ xs) q ns ns₁ e h =
    let (ns₀, c, rest) = vehicles_on x xs ns ns₁ e in
    ground (arith, c.new, c.kept q, taken-count_named xs q ns₀ ns₁ rest, eq_iff q x.name)

pub check_vehicles-count_named :
    (xs : List VehicleConf) (q : String) (ns ns₁ : Names)
    → check_vehicles xs ns ≡ some ns₁
    → count_named q xs ≤ 1
unfolding count_named
check_vehicles-count_named [] q ns ns₁ e = omega arith
check_vehicles-count_named (x ∷ xs) q ns ns₁ e =
    let (ns₀, c, rest) = vehicles_on x xs ns ns₁ e in
    ground (
      arith,
      c.listed,
      taken-count_named xs q ns₀ ns₁ rest,
      check_vehicles-count_named xs q ns₀ ns₁ rest,
      eq_iff q x.name,
    )

-- Whether a vehicle is said to be made from itself.
unfoldable pub from_itself : VehicleConf → Bool
from_itself x = elim x.source [ (from_vehicle name) ↦ str_eq x.name name | _ ↦ false ]

reserve-vehicle :
    (xs : List String) (q : String) (ns : Names)
    → lookup q (reserve xs ns) ≡ some vehicle
    → lookup q ns ≡ some vehicle
unfolding reserve
reserve-vehicle [] q ns e = e
reserve-vehicle (x ∷ xs) q ns e =
    ground (arith, reserve-vehicle xs q (insert x reserved ns) e, lookup-insert x q reserved ns)

simulators-vehicle :
    (xs : List String) (q : String) (ns ns₁ : Names)
    → check_all simulator xs ns ≡ some ns₁
    → lookup q ns₁ ≡ some vehicle
    → lookup q ns ≡ some vehicle
unfolding check_all and_check check
simulators-vehicle [] q ns ns₁ e h = ground arith
simulators-vehicle (x ∷ xs) q ns ns₁ e h =
    ground
      (arith, simulators-vehicle xs q (insert x simulator ns) ns₁, lookup-insert x q simulator ns)

and_check-inv :
    (o : Option Names) (f : Names → Option Names) (ns : Names)
    → and_check o f ≡ some ns
    → (ns₀ : Names) × (o ≡ some ns₀) × (f ns₀ ≡ some ns)
unfolding and_check
and_check-inv none f ns e = absurd (ground arith)
and_check-inv (some ns₀) f ns e = (ns₀, refl, e)

nothing : (q : String) → lookup {V = EntityType} q [] ≢ some vehicle
unfolding lookup
nothing q e = ground arith

-- The names in which the vehicles of a consistent stack are checked hold no vehicle yet.
pub consistent_vehicles :
    (s : Stack) (ns : Names)
    → check_consistency s ≡ some ns
    → (ns₀ ns₁ : Names) × (check_vehicles s.vehicles ns₀ ≡ some ns₁)
      × ((q : String) → lookup q ns₀ ≢ some vehicle)
unfolding check_consistency
consistent_vehicles s ns e =
    let (ns₀, n, rest) =
      and_check-inv (check_all simulator s.simulators (reserve s.reserved_ids [])) _ ns e in
    let (ns₁, m, last) = and_check-inv (check_vehicles s.vehicles ns₀) _ ns rest in
    (
      ns₀,
      ns₁,
      m,
      λ q h. nothing q (
          reserve-vehicle s.reserved_ids q []
            (simulators-vehicle s.simulators q (reserve s.reserved_ids []) ns₀ n h)),
    )
