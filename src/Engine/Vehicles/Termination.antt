-- ===== src/Engine/Vehicles/Termination.antt =====
-- That the resolution of vehicles ends: engine/src/simulation_state_connect.cpp.
use cloe.Prelude.{
  ℕ, zero, suc, ◌+◌, ◌≤◌, ◌<◌, ◌≡◌, ◌≢◌, refl, Option, none, some, List, [], ◌∷◌, String, Map,
  lookup, insert, lookup-insert, length, ◌==◌, if◌then◌else◌, is_some, eq_iff, arith, value_or,
}
use cloe.Engine.Vehicles.{
  VehicleConf, Attempt, made, waiting, failed, Outcome, configured, aborted, out_of_fuel, Garage,
  new_vehicle, pass, report, resolve, count_made, count_named,
}

-- Each name of the first list is just once in the second.
unfoldable Distinct : List VehicleConf → List VehicleConf → Type 0
unfolding count_named
Distinct [] cs = Unit
Distinct (d ∷ ds) cs = (count_named d.name cs ≡ 1) × Distinct ds cs

Distinct-part :
    (ds cs : List VehicleConf)
    → ((name : String) → count_named name cs ≤ 1)
    → ((name : String) → count_named name ds ≤ count_named name cs)
    → Distinct ds cs
unfolding Distinct count_named
Distinct-part [] cs h k = tt
Distinct-part (d ∷ ds) cs h k = (
  ground (arith, h d.name, k d.name, eq_iff d.name d.name),
  Distinct-part ds cs h (λ name. omega (arith, k name)),
)

module _ {V : Type 0} where
  length-insert :
      (name : String) (v : V) (vs : Map V)
      → lookup name vs ≡ none
      → length (insert name v vs) ≡ suc (length vs)
  unfolding insert lookup
  length-insert name v [] e = refl
  length-insert name v (x ∷ vs) e = ground (arith, length-insert name v vs)

  count_made-insert :
      (cs : List VehicleConf) (name : String) (v : V) (vs : Map V)
      → lookup name vs ≡ none
      → count_made cs (insert name v vs) ≡ count_made cs vs + count_named name cs
  unfolding count_made count_named
  count_made-insert [] name v vs e = refl
  count_made-insert (c ∷ cs) name v vs e =
      ground (
        arith,
        count_made-insert cs name v vs e,
        lookup-insert name c.name v vs,
        eq_iff name c.name,
      )

  count_made-le : (cs : List VehicleConf) (vs : Map V) → count_made cs vs ≤ length cs
  unfolding count_made
  count_made-le [] vs = omega arith
  count_made-le (c ∷ cs) vs = ground (arith, count_made-le cs vs)

  -- A report is found where a vehicle is missing.
  report-found :
      (cs : List VehicleConf) (vs : Map V)
      → count_made cs vs < length cs
      → (fallback : Outcome V) → value_or (report cs vs) fallback ≢ out_of_fuel
  unfolding count_made report
  report-found [] vs l fallback e = omega arith
  report-found (c ∷ cs) vs l fallback e = ground (arith, report-found cs vs _ fallback)

  unfoldable pub Grows : List VehicleConf → Map V → Option (Map V) → Type 0
  Grows cs vs none = Unit
  Grows cs vs (some vs₁) = (count_made cs vs₁ ≡ length vs₁) × (length vs ≤ length vs₁)

  widen :
      (cs : List VehicleConf) (vs vs₁ : Map V) (o : Option (Map V))
      → length vs ≤ length vs₁
      → Grows cs vs₁ o
      → Grows cs vs o
  unfolding Grows
  widen cs vs vs₁ none l h = tt
  widen cs vs vs₁ (some vs₂) l h = (h.0, omega (arith, l, h.1))

  pass_on :
      (g : Garage V) (cs ds : List VehicleConf) (d : VehicleConf) (vs : Map V)
      → (o : Option V) (a : Attempt V) → Grows cs vs (pass g ds vs)
      → ((v : V) → o ≡ none → Grows cs vs (pass g ds (insert d.name v vs)))
      → Grows cs vs (
          if is_some o then pass g ds vs else elim a [
            | (made v) ↦ pass g ds (insert d.name v vs)
            | waiting ↦ pass g ds vs
            | failed ↦ none
          ])
  unfolding Grows
  pass_on g cs ds d vs (some v) a h k = h
  pass_on g cs ds d vs none (made v) h k = k v refl
  pass_on g cs ds d vs none waiting h k = h
  pass_on g cs ds d vs none failed h k = tt

  -- A pass loses no vehicle, and makes vehicles of configurations only.
  parts-Grows :
      (g : Garage V) (cs ds : List VehicleConf) (vs : Map V)
      → Distinct ds cs
      → count_made cs vs ≡ length vs
      → Grows cs vs (pass g ds vs)
  unfolding pass Distinct Grows
  parts-Grows g cs [] vs p e = (e, omega arith)
  parts-Grows g cs (d ∷ ds) vs p e =
      pass_on g cs ds d vs (lookup d.name vs) (new_vehicle g d d.source vs)
        (parts-Grows g cs ds vs p.1 e)
        (λ v q.
          let vs₁ = insert d.name v vs in
          let longer = length-insert d.name v vs q in
          widen cs vs vs₁ (pass g ds vs₁) (omega (arith, longer)) (
            parts-Grows g cs ds vs₁ p.1
              (omega (arith, count_made-insert cs d.name v vs q, longer, p.0, e))))

  pub pass-Grows :
      (g : Garage V) (cs : List VehicleConf) (vs : Map V)
      → ((name : String) → count_named name cs ≤ 1)
      → count_made cs vs ≡ length vs
      → Grows cs vs (pass g cs vs)
  pass-Grows g cs vs p = parts-Grows g cs cs vs (Distinct-part cs cs p (λ name. omega arith))

  round_on :
      (fuel : ℕ) (cs : List VehicleConf) (vs : Map V) (o : Option (Map V)) (f : Map V → Outcome V)
      → Grows cs vs o
      → count_made cs vs ≡ length vs
      → ((vs₁ : Map V)
          → count_made cs vs₁ ≡ length vs₁
          → length vs < length vs₁
          → f vs₁ ≢ out_of_fuel)
      → (if length vs == length cs then configured vs else elim o [
        | none ↦ aborted
        | (some vs₁) ↦
            (let again = f vs₁ in
              if length vs₁ == length vs then value_or (report cs vs₁) again else again)
      ])
        ≢ out_of_fuel
  unfolding Grows
  round_on fuel cs vs none f h e k q = ground arith
  round_on fuel cs vs (some vs₁) f h e k q =
      ground (arith, report-found cs vs₁ _ (f vs₁), count_made-le cs vs, k vs₁ h.0, h.1, h.0, e)

  -- If no two vehicles have the same name, and the vehicles that are there are as many as have
  -- been made of the configurations, the loop ends after as many rounds as there are vehicles to
  -- make, and one more.
  pub resolve-ends :
      (g : Garage V) (fuel : ℕ) (cs : List VehicleConf) (vs : Map V)
      → ((name : String) → count_named name cs ≤ 1)
      → count_made cs vs ≡ length vs
      → length cs < fuel + length vs
      → resolve g fuel cs vs ≢ out_of_fuel
  unfolding resolve
  resolve-ends g zero cs vs p e l q = ground (arith, count_made-le cs vs)
  resolve-ends g (suc fuel) cs vs p e l q =
      round_on fuel cs vs (pass g cs vs) (resolve g fuel cs) (pass-Grows g cs vs p e) e
        (λ vs₁ e₁ more. resolve-ends g fuel cs vs₁ p e₁ (omega (arith, more, l))) q
