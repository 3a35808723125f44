-- ===== src/Models/Vehicle.antt =====
-- Vehicles and their components: runtime/src/cloe/vehicle.cpp. A component is known by its id, and
-- may stand under several names in the map of a vehicle; what it does is a function of a world.
use cloe.Prelude.{
  ℕ, ◌≡◌, inl, inr, refl, sym, ap, subst, Bool, true, false, List, [], ◌∷◌, ◌||◌, if◌then◌else◌,
  ◌==◌, ltb, Bool-cases, arith,
}
use cloe.Prelude.Texts.{Text}
pub mod Components

unfoldable pub contains : ℕ → List ℕ → Bool
contains id [] = false
contains id (x ∷ xs) = x == id || contains id xs

-- The time that is returned, the world, and the calls of `process` on components, by their ids and
-- in their order.
pub record Processed (W : Type 0) : Type 0 where
  pub time : ℕ
  pub world : W
  pub calls : List ℕ

module _ {W : Type 0} (process_component : ℕ → W → ℕ × W) where
  -- The loop of `process`, with the ids that it has met.
  unfoldable pub process_from : ℕ → List (Text × ℕ) → List ℕ → W → Processed W
  unfolding contains
  process_from target [] met w = record { time = target; world = w; calls = [] }
  process_from target (c ∷ cs) met w =
      let (t, w') = process_component c.1 w in
      let skipped = process_from target cs met w in
      let further = process_from target cs (c.1 ∷ met) w' in
      if contains c.1 met
      then skipped
      else if ltb t target
      then record { time = t; world = w'; calls = c.1 ∷ [] }
      else record further { calls = c.1 ∷ further.calls }

  unfoldable pub process : ℕ → List (Text × ℕ) → W → Processed W
  unfolding process_from
  process target components w = process_from target components [] w

-- No id comes twice.
abbrev pub Distinct : List ℕ → Type 0
Distinct [] = Unit
Distinct (x ∷ xs) = (contains x xs ≡ false) × Distinct xs

-- The ids of the components, each where it comes for the first time, but for those that are met
-- already.
abbrev pub distinct_ids : List (Text × ℕ) → List ℕ → List ℕ
distinct_ids [] met = []
distinct_ids (c ∷ cs) met =
    if contains c.1 met then distinct_ids cs met else c.1 ∷ distinct_ids cs (c.1 ∷ met)

abbrev pub ids_of : List (Text × ℕ) → List ℕ
ids_of [] = []
ids_of (c ∷ cs) = c.1 ∷ ids_of cs

met_absent :
    (id : ℕ) (cs : List (Text × ℕ)) (met : List ℕ)
    → contains id met ≡ true
    → contains id (distinct_ids cs met) ≡ false
unfolding contains
met_absent id [] met h = refl
met_absent id (c ∷ cs) met h = elim (Bool-cases (contains c.1 met)) [
  | inl e ↦ rw e (met_absent id cs met h)
  | inr e ↦ rw e (ground (arith, e, h, met_absent id cs (c.1 ∷ met)))
]

ids_kept :
    (id : ℕ) (cs : List (Text × ℕ)) (met : List ℕ)
    → contains id met ≡ false
    → contains id (distinct_ids cs met) ≡ contains id (ids_of cs)
unfolding contains
ids_kept id [] met h = refl
ids_kept id (c ∷ cs) met h = elim (Bool-cases (contains c.1 met)) [
  | inl e ↦ rw e (ground (arith, e, h, ids_kept id cs met))
  | inr e ↦ rw e (ground (arith, e, h, ids_kept id cs (c.1 ∷ met)))
]

Distinct-distinct_ids : (cs : List (Text × ℕ)) (met : List ℕ) → Distinct (distinct_ids cs met)
unfolding contains
Distinct-distinct_ids [] met = tt
Distinct-distinct_ids (c ∷ cs) met = elim (Bool-cases (contains c.1 met)) [
  | inl e ↦ rw e (Distinct-distinct_ids cs met)
  | inr e ↦
      rw e (met_absent c.1 cs (c.1 ∷ met) (ground arith), Distinct-distinct_ids cs (c.1 ∷ met))
]

module _ {W : Type 0} (process_component : ℕ → W → ℕ × W) where
  -- One component after the other, up to the first that is late.
  abbrev pub run_until : ℕ → List ℕ → W → Processed W
  run_until target [] w = record { time = target; world = w; calls = [] }
  run_until target (id ∷ ids) w =
      let further = run_until target ids (process_component id w).1 in
      if ltb (process_component id w).0 target
      then record {
        time = (process_component id w).0;
        world = (process_component id w).1;
        calls = id ∷ [];
      }
      else record further { calls = id ∷ further.calls }

  process_from-run_until :
      (target : ℕ) (cs : List (Text × ℕ)) (met : List ℕ) (w : W)
      → process_from process_component target cs met w ≡ run_until target (distinct_ids cs met) w
  unfolding process_from
  process_from-run_until target [] met w = refl
  process_from-run_until target (c ∷ cs) met w = elim (Bool-cases (contains c.1 met)) [
    | inl e ↦ rw e (process_from-run_until target cs met w)
    | inr e ↦ rw e (
        ap
          (λ (r : Processed W).
            if ltb (process_component c.1 w).0 target
            then record {
              time = (process_component c.1 w).0;
              world = (process_component c.1 w).1;
              calls = c.1 ∷ [];
            }
            else record r { calls = c.1 ∷ r.calls })
          (process_from-run_until target cs (c.1 ∷ met) (process_component c.1 w).1))
  ]

  no_further :
      (target id : ℕ) (ids : List ℕ) (w : W)
      → contains id ids ≡ false
      → contains id (run_until target ids w).calls ≡ false
  unfolding contains
  no_further target id [] w h = refl
  no_further target id (x ∷ xs) w h = elim (Bool-cases (ltb (process_component x w).0 target)) [
    | inl late ↦ rw late (ground (arith, h))
    | inr on ↦ rw on (ground (arith, h, no_further target id xs (process_component x w).1))
  ]

  Distinct-run_until :
      (target : ℕ) (ids : List ℕ) (w : W) → Distinct ids → Distinct (run_until target ids w).calls
  unfolding contains
  Distinct-run_until target [] w h = tt
  Distinct-run_until target (x ∷ xs) w h =
      elim (Bool-cases (ltb (process_component x w).0 target)) [
        | inl late ↦ rw late (refl, tt)
        | inr on ↦ rw on (
          no_further target x xs (process_component x w).1 h.0,
          Distinct-run_until target xs (process_component x w).1 h.1,
        )
      ]

  -- In a step of a vehicle, the components are processed one after the other, each at most once,
  -- under however many names it stands in the vehicle, and up to the first that does not reach the
  -- time of the step; the vehicle returns the time of that one, or the time of the step if there is
  -- none.
  pub process-once :
      (target : ℕ) (components : List (Text × ℕ)) (w : W)
      → (process process_component target components w
          ≡ run_until target (distinct_ids components []) w)
        × Distinct (distinct_ids components [])
        × ((id : ℕ) → contains id (distinct_ids components []) ≡ contains id (ids_of components))
        × Distinct (process process_component target components w).calls
  unfolding process contains
  process-once target components w = (
    process_from-run_until target components [] w,
    Distinct-distinct_ids components [],
    λ id. ids_kept id components [] refl,
    subst (λ (r : Processed W). Distinct r.calls)
        (sym (process_from-run_until target components [] w))
        (Distinct-run_until target (distinct_ids components []) w
          (Distinct-distinct_ids components [])),
  )
