-- ===== src/Models/Vehicle/Components.antt =====
-- The components of a vehicle and the calls that a vehicle passes on to them:
-- runtime/src/cloe/vehicle.cpp and runtime/include/cloe/vehicle.hpp. What a component does is a
-- function of a world, with whether it returns; if it throws, the walk over the components ends
-- there.
use cloe.Prelude.{
  ℕ, ◌≡◌, ◌⊎◌, inl, inr, refl, sym, subst, Bool, true, false, Option, none, some, List, [], ◌∷◌,
  not, if◌then◌else◌, ◌==◌, ltb, All, Bool-cases, arith, is_some, ap, length, ◌+◌,
}
use cloe.Prelude.Texts.{Text, eq_text, eq_text-eq, eq_text_refl, find_text}
use cloe.Models.Vehicle.{contains, Distinct}

-- The components are a map, in the order of its keys.
pub record Vehicle : Type 0 where
  pub id : ℕ
  pub name : Text
  pub components : List (Text × ℕ)
  pub is_connected : Bool

-- The vehicle has the components of another one: both point to the same.
unfoldable pub clone : ℕ → Text → Vehicle → Vehicle
clone id name v = record { id = id; name = name; components = v.components; is_connected = false }

unfoldable pub has : Text → Vehicle → Bool
unfolding find_text
has key v = is_some (find_text key v.components)

-- None stands for the exception.
unfoldable pub at_key : Text → Vehicle → Option ℕ
unfolding find_text
at_key key v = find_text key v.components

unfoldable pub before : Text → Text → Bool
before [] [] = false
before [] (d ∷ ds) = true
before (c ∷ cs) [] = false
before (c ∷ cs) (d ∷ ds) = let rest = before cs ds in if c == d then rest else ltb c d

-- `components_[key] = component`
unfoldable pub put_component : Text → ℕ → List (Text × ℕ) → List (Text × ℕ)
unfolding before
put_component key id [] = (key, id) ∷ []
put_component key id (kv ∷ kvs) =
    if eq_text kv.0 key
    then (key, id) ∷ kvs
    else if before key kv.0
    then (key, id) ∷ kv ∷ kvs
    else kv ∷ put_component key id kvs

unfoldable pub set_component : Text → ℕ → Vehicle → Vehicle
unfolding put_component
set_component key id v = record v { components = put_component key id v.components }

unfoldable pub add_component : ℕ → Text → Vehicle → Option Vehicle
unfolding has set_component
add_component id alias v = if has alias v then none else some (set_component alias id v)

-- Under several names, one after the other; with the vehicle as it is by then, and whether it
-- returns.
unfoldable pub add_components : ℕ → List Text → Vehicle → Vehicle × Bool
unfolding add_component
add_components id [] v = (v, true)
add_components id (alias ∷ aliases) v = elim (add_component id alias v) [
  | none ↦ (v, false)
  | (some v') ↦ add_components id aliases v'
]

unfoldable pub emplace_component : ℕ → List Text → Vehicle → Vehicle
unfolding set_component
emplace_component id [] v = v
emplace_component id (alias ∷ aliases) v = emplace_component id aliases (set_component alias id v)

unfoldable pub component_names : List (Text × ℕ) → List Text
component_names [] = []
component_names (kv ∷ kvs) = kv.0 ∷ component_names kvs

-- The world, the components that have been called, the last one first, and whether all have
-- returned.
pub record Visited (W : Type 0) : Type 0 where
  pub world : W
  pub calls : List ℕ
  pub returned : Bool

module _ {W : Type 0} (due : ℕ → W → Bool) (act : ℕ → W → W × Bool) where
  -- The loops of `connect` and `disconnect`, and with every component due those of `reset` and
  -- `abort`.
  unfoldable pub visit : List (Text × ℕ) → List ℕ → W → Visited W
  visit [] called w = record { world = w; calls = called; returned = true }
  visit (c ∷ cs) called w =
      let skipped = visit cs called w in
      let further = visit cs (c.1 ∷ called) (act c.1 w).0 in
      if due c.1 w
      then (if (act c.1 w).1
          then further
          else record { world = (act c.1 w).0; calls = c.1 ∷ called; returned = false })
      else skipped

module _ {W : Type 0} (is_connected : ℕ → W → Bool) (act : ℕ → W → W × Bool) where
  -- The flag of the model is set behind the loop.
  unfoldable pub connect : Vehicle → W → Vehicle × Visited W
  unfolding visit
  connect v w =
      let r = visit (λ id x. not (is_connected id x)) act v.components [] w in
      (record v { is_connected = if r.returned then true else v.is_connected }, r)

  unfoldable pub disconnect : Vehicle → W → Vehicle × Visited W
  unfolding visit
  disconnect v w =
      let r = visit is_connected act v.components [] w in
      (record v { is_connected = if r.returned then false else v.is_connected }, r)

-- `reset` and `abort`, with what they call.
unfoldable pub call_each : {W : Type 0} → (ℕ → W → W × Bool) → Vehicle → W → Visited W
unfolding visit
call_each act v w = visit (λ id x. true) act v.components [] w

find_text-here : (k : Text) (id : ℕ) (kvs : List (Text × ℕ)) → find_text k ((k, id) ∷ kvs) ≡ some id
unfolding find_text
find_text-here k id kvs = ground (arith, eq_text_refl k)

put_component-finds :
    (k read : Text) (id : ℕ) (kvs : List (Text × ℕ))
    → find_text read (put_component k id kvs)
      ≡ (if eq_text k read then some id else find_text read kvs)
unfolding find_text put_component
put_component-finds k read id [] = refl
put_component-finds k read id (kv ∷ kvs) = ground (
  put_component-finds k read id kvs,
  eq_text-eq kv.0 k,
  eq_text-eq k read,
  eq_text-eq kv.0 read,
  eq_text_refl read,
  arith,
)

-- A component that is added under a name is found under it, and the other names lead where they
-- have led; the call is refused exactly if the name is taken.
pub add_component-at :
    (id : ℕ) (alias key : Text) (v v' : Vehicle)
    → add_component id alias v ≡ some v'
    → (has alias v ≡ false)
      × (at_key key v' ≡ (if eq_text alias key then some id else at_key key v))
unfolding add_component has at_key set_component
add_component-at id alias key v v' e = ground (arith, put_component-finds alias key id v.components)

module _ {W : Type 0} (due : ℕ → W → Bool) (act : ℕ → W → W × Bool)
    (settles : (id : ℕ) (w : W) → (act id w).1 ≡ true → due id (act id w).0 ≡ false)
    (keeps : (id other : ℕ) (w : W) → due other w ≡ false → due other (act id w).0 ≡ false) where
  -- Each is called at most once, and if all have returned, none is due any more.
  Settled : List (Text × ℕ) → Visited W → Type 0
  Settled cs r = Distinct r.calls × ((r.returned ≡ false) ⊎ All (λ c. due c.1 r.world ≡ false) cs)

  -- What is not due stays so.
  visit_keeps :
      (cs : List (Text × ℕ)) (called : List ℕ) (w : W) (id : ℕ)
      → due id w ≡ false
      → due id (visit due act cs called w).world ≡ false
  unfolding visit
  visit_keeps [] called w id e = e
  visit_keeps (c ∷ cs) called w id e = elim (Bool-cases (due c.1 w)) [
    | inr skip ↦ rw skip (visit_keeps cs called w id e)
    | inl call ↦ elim (Bool-cases (act c.1 w).1) [
      | inl back ↦
          rw (call, back) (visit_keeps cs (c.1 ∷ called) (act c.1 w).0 id (keeps c.1 id w e))
      | inr stop ↦ rw (call, stop) (keeps c.1 id w e)
    ]
  ]

  not_called :
      (id : ℕ) (called : List ℕ) (w : W)
      → ((x : ℕ) → contains x called ≡ true → due x w ≡ false)
      → due id w ≡ true
      → contains id called ≡ false
  not_called id called w known e = elim (Bool-cases (contains id called)) [
    | inl there ↦ let off = known id there in cc
    | inr absent ↦ absent
  ]

  known_further :
      (id : ℕ) (called : List ℕ) (w : W)
      → ((x : ℕ) → contains x called ≡ true → due x w ≡ false)
      → (act id w).1 ≡ true
      → (x : ℕ) → contains x (id ∷ called) ≡ true
      → due x (act id w).0 ≡ false
  unfolding contains
  known_further id called w known back x there =
      grind (arith, settles id w back, keeps id x w, known x)

  with_component :
      (c : Text × ℕ) (cs : List (Text × ℕ)) (r : Visited W)
      → due c.1 r.world ≡ false
      → Settled cs r
      → Settled (c ∷ cs) r
  unfolding Settled
  with_component c cs r off (distinct, inl stopped) = (distinct, inl stopped)
  with_component c cs r off (distinct, inr all) = (distinct, inr (off, all))

  visit_skips :
      (c : Text × ℕ) (cs : List (Text × ℕ)) (called : List ℕ) (w : W)
      → due c.1 w ≡ false
      → visit due act (c ∷ cs) called w ≡ visit due act cs called w
  unfolding visit
  visit_skips c cs called w skip = rw skip refl

  visit_calls :
      (c : Text × ℕ) (cs : List (Text × ℕ)) (called : List ℕ) (w : W)
      → due c.1 w ≡ true
      → (act c.1 w).1 ≡ true
      → visit due act (c ∷ cs) called w ≡ visit due act cs (c.1 ∷ called) (act c.1 w).0
  unfolding visit
  visit_calls c cs called w call back = rw (call, back) refl

  visit-Settled :
      (cs : List (Text × ℕ)) (called : List ℕ) (w : W)
      → Distinct called
      → ((x : ℕ) → contains x called ≡ true → due x w ≡ false)
      → Settled cs (visit due act cs called w)
  unfolding visit Settled
  visit-Settled [] called w distinct known = (distinct, inr tt)
  visit-Settled (c ∷ cs) called w distinct known = elim (Bool-cases (due c.1 w)) [
    | inr skip ↦ subst (Settled (c ∷ cs)) (sym (visit_skips c cs called w skip)) (
        with_component c cs (visit due act cs called w) (visit_keeps cs called w c.1 skip)
          (visit-Settled cs called w distinct known))
    | inl call ↦ elim (Bool-cases (act c.1 w).1) [
      | inl back ↦ subst (Settled (c ∷ cs)) (sym (visit_calls c cs called w call back)) (
          with_component c cs (visit due act cs (c.1 ∷ called) (act c.1 w).0)
            (visit_keeps cs (c.1 ∷ called) (act c.1 w).0 c.1 (settles c.1 w back))
            (visit-Settled cs (c.1 ∷ called) (act c.1 w).0
              (not_called c.1 called w known call, distinct)
              (known_further c.1 called w known back)))
      | inr stop ↦ rw (call, stop) ((not_called c.1 called w known call, distinct), inl refl)
    ]
  ]

nothing_called : (P : ℕ → Type 0) (x : ℕ) → contains x [] ≡ true → P x
unfolding contains
nothing_called P x none_yet = absurd (ground arith)

visit_count :
    {W : Type 0} (act : ℕ → W → W × Bool) (cs : List (Text × ℕ)) (called : List ℕ) (w : W)
    → (visit (λ id x. true) act cs called w).returned ≡ true
    → length (visit (λ id x. true) act cs called w).calls ≡ length called + length cs
unfolding visit
visit_count act [] called w back = omega arith
visit_count act (c ∷ cs) called w back = elim (Bool-cases (act c.1 w).1) [
  | inl fine ↦
      rw fine (omega (arith, visit_count act cs (c.1 ∷ called) (act c.1 w).0 (rw fine at back)))
  | inr stop ↦ let off : false ≡ true = rw stop at back in cc
]

-- `reset` and `abort` call a component once for each of its names.
pub call_each-length :
    {W : Type 0} (act : ℕ → W → W × Bool) (v : Vehicle) (w : W)
    → (call_each act v w).returned ≡ true
    → length (call_each act v w).calls ≡ length v.components
unfolding call_each
call_each-length act v w back = omega (arith, visit_count act v.components [] w back)

module _ {W : Type 0} (is_connected : ℕ → W → Bool) where
  All-connected :
      (cs : List (Text × ℕ)) (w : W)
      → All (λ c. not (is_connected c.1 w) ≡ false) cs
      → All (λ c. is_connected c.1 w ≡ true) cs
  All-connected [] w all = tt
  All-connected (c ∷ cs) w (off, all) = (ground (arith, off), All-connected cs w all)

  -- The flag of the vehicle, and the components, behind a walk.
  flag_follows :
      (v : Vehicle) (r : Visited W)
      → ((r.returned ≡ false) ⊎ All (λ c. not (is_connected c.1 r.world) ≡ false) v.components)
      → ((r.returned ≡ false)
          × (record v { is_connected = if r.returned then true else v.is_connected } ≡ v))
        ⊎ (((if r.returned then true else v.is_connected) ≡ true)
            × All (λ c. is_connected c.1 r.world ≡ true) v.components)
  flag_follows v r (inl stopped) = inl (stopped, rw stopped refl)
  flag_follows v r (inr all) = elim (Bool-cases r.returned) [
    | inl back ↦ inr (rw back refl, All-connected v.components r.world all)
    | inr stopped ↦ inl (stopped, rw stopped refl)
  ]

  -- Connecting a vehicle, where a component whose connecting returns is connected then, and no
  -- other one is disconnected by it: each component is connected at most once, under however many
  -- names it stands, and either one of them throws, and the vehicle is as it was, or the vehicle
  -- and all of its components are connected.
  pub connect-once :
      (act : ℕ → W → W × Bool)
      → ((id : ℕ) (w : W) → (act id w).1 ≡ true → is_connected id (act id w).0 ≡ true)
      → ((id other : ℕ) (w : W)
          → is_connected other w ≡ true
          → is_connected other (act id w).0 ≡ true)
      → (v : Vehicle) (w : W)
      → Distinct (connect is_connected act v w).1.calls
        × ((((connect is_connected act v w).1.returned ≡ false)
              × ((connect is_connected act v w).0 ≡ v))
            ⊎ (((connect is_connected act v w).0.is_connected ≡ true)
                × All
                    (λ c. is_connected c.1 (connect is_connected act v w).1.world ≡ true)
                    v.components))
  unfolding connect Settled
  connect-once act settles keeps v w =
      let known =
        visit-Settled (λ id x. not (is_connected id x)) act
          (λ id x back. ap (λ b. not b) (settles id x back))
          (λ id other x off. ground (arith, keeps id other x)) v.components [] w tt
          (nothing_called _) in
      (
        known.0,
        flag_follows v (visit (λ id x. not (is_connected id x)) act v.components [] w) known.1,
      )

  -- The same of disconnecting, where only what is connected is called.
  pub disconnect-once :
      (act : ℕ → W → W × Bool)
      → ((id : ℕ) (w : W) → (act id w).1 ≡ true → is_connected id (act id w).0 ≡ false)
      → ((id other : ℕ) (w : W)
          → is_connected other w ≡ false
          → is_connected other (act id w).0 ≡ false)
      → (v : Vehicle) (w : W)
      → Distinct (disconnect is_connected act v w).1.calls
        × (((disconnect is_connected act v w).1.returned ≡ false)
            ⊎ All
                (λ c. is_connected c.1 (disconnect is_connected act v w).1.world ≡ false)
                v.components)
  unfolding disconnect Settled
  disconnect-once act settles keeps v w =
      visit-Settled is_connected act settles keeps v.components [] w tt (nothing_called _)
