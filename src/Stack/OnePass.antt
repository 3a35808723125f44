-- ===== src/Stack/OnePass.antt =====
-- That one pass makes the vehicles of a consistent stack: stack/src/cloe/stack.cpp and
-- engine/src/simulation_state_connect.cpp.
use cloe.Prelude.{
  ◌≡◌, ◌≢◌, ◌⊎◌, inl, inr, refl, sym, ◌∙◌, true, false, Option, none, some, List, [], ◌∷◌, String,
  Map, lookup, insert, lookup-insert, length, ◌==◌, if◌then◌else◌, is_some, eq_iff, arith, value_or,
  All,
}
use cloe.Engine.Vehicles.{
  Prototype, by_name, by_index, from_vehicle, VehicleConf, Attempt, made, waiting, failed,
  configured, aborted, Garage, new_vehicle, configured_from, pass, resolve, report, count_made,
}
use cloe.Engine.Vehicles.Termination.{Grows, pass-Grows}
use cloe.Stack.Consistency.{vehicle, Stack, Names, check_vehicles, check_consistency}
use cloe.Stack.Resolved.{
  Checked, vehicles_on, check_vehicles-count_named, consistent_vehicles, from_itself,
}

module _ {V : Type 0} (g : Garage V) where
  -- What a pass over a checked part of the configurations leaves.
  Complete : List VehicleConf → Map V → Option (Map V) → Type 0
  unfolding count_made
  Complete ds vs none = Unit
  Complete ds vs (some vs₁) =
      (count_made ds vs₁ ≡ length ds)
      × ((q : String) → is_some (lookup q vs) ≡ true → is_some (lookup q vs₁) ≡ true)

  -- What has been made of the vehicles that are checked so far.
  Made : Names → Map V → Type 0
  Made ns vs = (q : String) → lookup q ns ≡ some vehicle → is_some (lookup q vs) ≡ true

  Made-later :
      (x : VehicleConf) (ns ns₀ : Names) (vs : Map V)
      → Checked x ns ns₀
      → Made ns vs
      → is_some (lookup x.name vs) ≡ true
      → Made ns₀ vs
  unfolding Made
  Made-later x ns ns₀ vs c m h q e = ground (arith, c.only q e, m q, eq_iff x.name q)

  Made-insert :
      (x : VehicleConf) (v : V) (ns : Names) (vs : Map V)
      → Made ns vs
      → Made ns (insert x.name v vs)
  unfolding Made
  Made-insert x v ns vs m q e = ground (arith, m q e, lookup-insert x.name q v vs)

  is_some-insert :
      (name q : String) (v : V) (vs : Map V)
      → (is_some (lookup name (insert name v vs)) ≡ true)
        × (is_some (lookup q vs) ≡ true → is_some (lookup q (insert name v vs)) ≡ true)
  is_some-insert name q v vs = (
    ground (arith, lookup-insert name name v vs, eq_iff name name),
    λ h. ground (arith, lookup-insert name q v vs),
  )

  Complete-first :
      (d : VehicleConf) (ds : List VehicleConf) (vs vs₀ : Map V) (o : Option (Map V))
      → is_some (lookup d.name vs₀) ≡ true
      → ((q : String) → is_some (lookup q vs) ≡ true → is_some (lookup q vs₀) ≡ true)
      → Complete ds vs₀ o
      → Complete (d ∷ ds) vs o
  unfolding Complete count_made
  Complete-first d ds vs vs₀ none h k c = tt
  Complete-first d ds vs vs₀ (some vs₁) h k c =
      (ground (arith, c.0, c.1 d.name h), λ q e. c.1 q (k q e))

  waits_not :
      (d : VehicleConf) (src : Prototype) (ns ns₀ : Names) (vs : Map V)
      → Checked d ns ns₀
      → d.source ≡ src
      → from_itself d ≡ false
      → Made ns vs
      → new_vehicle g d src vs ≢ waiting
  unfolding new_vehicle configured_from from_itself Made
  waits_not d (by_name sim name) ns ns₀ vs c s f m e = ground arith
  waits_not d (by_index sim n) ns ns₀ vs c s f m e = ground arith
  waits_not d (from_vehicle q) ns ns₀ vs c s f m e = ground (arith, c.source q s, m q)

  pass_first :
      (d : VehicleConf) (ds : List VehicleConf) (vs : Map V) (o : Option V) (a : Attempt V)
      → lookup d.name vs ≡ o
      → a ≢ waiting
      → (is_some (lookup d.name vs) ≡ true → Complete ds vs (pass g ds vs))
      → ((v : V) → Complete ds (insert d.name v vs) (pass g ds (insert d.name v vs)))
      → Complete (d ∷ ds) vs (
          if is_some o then pass g ds vs else elim a [
            | (made v) ↦ pass g ds (insert d.name v vs)
            | waiting ↦ pass g ds vs
            | failed ↦ none
          ])
  unfolding Complete
  pass_first d ds vs (some v) a e n skip new =
      Complete-first d ds vs vs (pass g ds vs) (ground arith) (λ q h. h) (skip (ground arith))
  pass_first d ds vs none (made v) e n skip new =
      Complete-first d ds vs (insert d.name v vs) (pass g ds (insert d.name v vs))
        (is_some-insert d.name d.name v vs).0 (λ q. (is_some-insert d.name q v vs).1) (new v)
  pass_first d ds vs none waiting e n skip new = absurd (n refl)
  pass_first d ds vs none failed e n skip new = tt

  pass-Complete :
      (ds : List VehicleConf) (vs : Map V) (ns ns₁ : Names)
      → check_vehicles ds ns ≡ some ns₁
      → All (λ d. from_itself d ≡ false) ds
      → Made ns vs
      → Complete ds vs (pass g ds vs)
  unfolding pass Complete count_made
  pass-Complete [] vs ns ns₁ e f m = (refl, λ q h. h)
  pass-Complete (d ∷ ds) vs ns ns₁ e f m =
      let (ns₀, c, rest) = vehicles_on d ds ns ns₁ e in
      pass_first d ds vs (lookup d.name vs) (new_vehicle g d d.source vs) refl
        (waits_not d d.source ns ns₀ vs c refl f.0 m)
        (λ h. pass-Complete ds vs ns₀ ns₁ rest f.1 (Made-later d ns ns₀ vs c m h))
        (λ v. pass-Complete ds (insert d.name v vs) ns₀ ns₁ rest f.1 (
          Made-later d ns ns₀ (insert d.name v vs) c (Made-insert d v ns vs m)
            (is_some-insert d.name d.name v vs).0))

  count_made-nil : (cs : List VehicleConf) → count_made {V = V} cs [] ≡ 0
  unfolding count_made lookup
  count_made-nil [] = refl
  count_made-nil (c ∷ cs) = omega (arith, count_made-nil cs)

  -- The vehicle that a vehicle is made from.
  abbrev pub based : Prototype → Map V → Option V
  based (by_name sim name) vs = g.get_by_name sim name
  based (by_index sim n) vs = g.get_by_index sim n
  based (from_vehicle name) vs = lookup name vs

  abbrev pub made_of : VehicleConf → Option V → Option V
  made_of d none = none
  made_of d (some v) = g.prepare d v

  -- The vehicles one after the other, each prepared from what it is made from; none if the one to
  -- make it from is not there or if it cannot be prepared.
  abbrev pub build : List VehicleConf → Map V → Option (Map V)
  build [] vs = some vs
  build (d ∷ ds) vs = elim (made_of d (based d.source vs)) [
    | none ↦ none
    | (some v) ↦ build ds (insert d.name v vs)
  ]

  -- No name of a vehicle to come is taken.
  Fresh : Names → Map V → Type 0
  Fresh ns vs = (q : String) → lookup q ns ≡ none → lookup q vs ≡ none

  as_attempt : Option V → Attempt V
  as_attempt none = failed
  as_attempt (some v) = made v

  prepared_attempt : (o : Option V) → elim o [ none ↦ failed | (some x) ↦ made x ] ≡ as_attempt o
  unfolding as_attempt
  prepared_attempt none = refl
  prepared_attempt (some x) = refl

  configured_from-made_of :
      (d : VehicleConf) (o : Option V) → configured_from g d o ≡ as_attempt (made_of d o)
  unfolding configured_from as_attempt
  configured_from-made_of d none = refl
  configured_from-made_of d (some v) = prepared_attempt (g.prepare d v)

  new_from-made_of :
      (d : VehicleConf) (o : Option V)
      → elim o [ none ↦ waiting | (some v) ↦ configured_from g d (some v) ] ≢ waiting
      → elim o [ none ↦ waiting | (some v) ↦ configured_from g d (some v) ]
        ≡ as_attempt (made_of d o)
  new_from-made_of d none n = absurd (n refl)
  new_from-made_of d (some v) n = configured_from-made_of d (some v)

  new_vehicle-made_of :
      (d : VehicleConf) (src : Prototype) (vs : Map V)
      → new_vehicle g d src vs ≢ waiting
      → new_vehicle g d src vs ≡ as_attempt (made_of d (based src vs))
  unfolding new_vehicle
  new_vehicle-made_of d (by_name sim name) vs n = configured_from-made_of d (g.get_by_name sim name)
  new_vehicle-made_of d (by_index sim k) vs n = configured_from-made_of d (g.get_by_index sim k)
  new_vehicle-made_of d (from_vehicle q) vs n = new_from-made_of d (lookup q vs) n

  passed_on :
      (d : VehicleConf) (ds : List VehicleConf) (vs : Map V) (o : Option V)
      → ((v : V) → pass g ds (insert d.name v vs) ≡ build ds (insert d.name v vs))
      → elim (as_attempt o) [
        | (made v) ↦ pass g ds (insert d.name v vs)
        | waiting ↦ pass g ds vs
        | failed ↦ none
      ]
        ≡ elim o [ none ↦ none | (some v) ↦ build ds (insert d.name v vs) ]
  unfolding as_attempt
  passed_on d ds vs none e = refl
  passed_on d ds vs (some v) e = e v

  pass_new :
      (d : VehicleConf) (ds : List VehicleConf) (vs : Map V) (o : Option V)
      → lookup d.name vs ≡ none
      → new_vehicle g d d.source vs ≡ as_attempt o
      → ((v : V) → pass g ds (insert d.name v vs) ≡ build ds (insert d.name v vs))
      → pass g (d ∷ ds) vs ≡ elim o [ none ↦ none | (some v) ↦ build ds (insert d.name v vs) ]
  unfolding pass
  pass_new d ds vs o absent new e = rw (absent, new) (passed_on d ds vs o e)

  Fresh-insert :
      (d : VehicleConf) (v : V) (ns ns₀ : Names) (vs : Map V)
      → Checked d ns ns₀
      → Fresh ns vs
      → Fresh ns₀ (insert d.name v vs)
  unfolding Fresh
  Fresh-insert d v ns ns₀ vs c fresh q e =
      ground (arith, c.listed, c.kept q, fresh q, lookup-insert d.name q v vs, eq_iff d.name q)

  pass-build :
      (ds : List VehicleConf) (vs : Map V) (ns ns₁ : Names)
      → check_vehicles ds ns ≡ some ns₁
      → All (λ d. from_itself d ≡ false) ds
      → Made ns vs
      → Fresh ns vs
      → pass g ds vs ≡ build ds vs
  unfolding pass Fresh
  pass-build [] vs ns ns₁ e f m fresh = refl
  pass-build (d ∷ ds) vs ns ns₁ e f m fresh =
      let (ns₀, c, rest) = vehicles_on d ds ns ns₁ e in
      pass_new d ds vs (made_of d (based d.source vs)) (fresh d.name c.new)
        (new_vehicle-made_of d d.source vs (waits_not d d.source ns ns₀ vs c refl f.0 m))
        (λ v.
          pass-build ds (insert d.name v vs) ns₀ ns₁ rest f.1
            (Made-later d ns ns₀ (insert d.name v vs) c (Made-insert d v ns vs m)
              (is_some-insert d.name d.name v vs).0)
            (Fresh-insert d v ns ns₀ vs c fresh))

  pass-nil : (cs : List VehicleConf) → length cs ≡ 0 → pass g cs [] ≡ some []
  unfolding pass
  pass-nil [] e = refl
  pass-nil (c ∷ cs) e = absurd (omega arith)

  one_pass :
      (cs : List VehicleConf) (o : Option (Map V))
      → (length cs ≡ 0 → o ≡ some [])
      → Complete cs [] o
      → Grows cs [] o
      → let r = if 0 == length cs then configured [] else elim o [
        | none ↦ aborted
        | (some vs) ↦
            (let again = resolve g 1 cs vs in
              if length vs == 0 then value_or (report cs vs) again else again)
      ] in
        ((o ≡ none) × (r ≡ aborted))
        ⊎ ((vs : Map V) × (o ≡ some vs) × (r ≡ configured vs) × (count_made cs vs ≡ length cs))
  unfolding Complete Grows resolve count_made
  one_pass [] o k c h = inr ([], k refl, refl, refl)
  one_pass (d ∷ ds) none k c h = inl (refl, ground arith)
  one_pass (d ∷ ds) (some vs) k c h = inr (vs, refl, ground (arith, c.0, h.0), c.0)

  -- In a consistent stack, none of whose vehicles is said to be made from itself, Connect makes the
  -- vehicles in one pass, just as if each were made, in the order of the stack, from the vehicle of
  -- its simulator or the one in front of it: it makes all of them, or it aborts, which it does
  -- exactly if one of them cannot be had or prepared.
  pub check_consistency-resolve :
      (s : Stack) (ns : Names)
      → check_consistency s ≡ some ns
      → All (λ d. from_itself d ≡ false) s.vehicles
      → ((build s.vehicles [] ≡ none) × (resolve g 2 s.vehicles [] ≡ aborted))
        ⊎ ((vs : Map V) × (build s.vehicles [] ≡ some vs)
            × (resolve g 2 s.vehicles [] ≡ configured vs)
            × (count_made s.vehicles vs ≡ length s.vehicles))
  unfolding resolve Made Fresh lookup
  check_consistency-resolve s ns e f =
      let (ns₀, ns₁, c, n) = consistent_vehicles s ns e in
      let built = pass-build s.vehicles [] ns₀ ns₁ c f (λ q h. absurd (n q h)) (λ q h. refl) in
      elim (one_pass s.vehicles (pass g s.vehicles []) (pass-nil s.vehicles)
        (pass-Complete s.vehicles [] ns₀ ns₁ c f (λ q h. absurd (n q h)))
        (pass-Grows g s.vehicles [] (λ q. check_vehicles-count_named s.vehicles q ns₀ ns₁ c)
          (count_made-nil s.vehicles))) [
            | (inl (stopped, r)) ↦ inl (sym built ∙ stopped, r)
            | (inr (vs, all, r, k)) ↦ inr (vs, sym built ∙ all, r, k)
          ]
