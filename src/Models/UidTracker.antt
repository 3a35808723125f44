-- ===== src/Models/UidTracker.antt =====
-- The tracker of unique ids: runtime/include/cloe/utility/uid_tracker.hpp and
-- runtime/src/cloe/utility/uid_tracker.cpp. The ids, `int` in the program, are not negative here;
-- the map and the set are lists in the order of their keys.
use cloe.Prelude.{
  ℕ, zero, suc, ◌+◌, ◌-◌, ◌≤◌, ◌<◌, ◌≡◌, refl, ap, ◌∙◌, Bool, true, false, ◌&&◌, Option, none, some,
  List, [], ◌∷◌, ltb, leb, ◌==◌, if◌then◌else◌, arith,
}

pub record Tracklet : Type 0 where
  pub in_id : ℕ
  pub out_id : ℕ
  pub age : ℕ

pub record UniqueIdTracker : Type 0 where
  pub ttl : ℕ
  pub assigned : List Tracklet
  pub free : List ℕ

-- `std::set::insert`, of an id that the set does not hold.
unfoldable pub insert_id : ℕ → List ℕ → List ℕ
insert_id n [] = n ∷ []
insert_id n (m ∷ ms) = if leb n m then n ∷ m ∷ ms else m ∷ insert_id n ms

-- `assigned_[id] = …`, for an `id` without an entry.
unfoldable pub insert_tracklet : Tracklet → List Tracklet → List Tracklet
insert_tracklet t [] = t ∷ []
insert_tracklet t (u ∷ us) = if leb t.in_id u.in_id then t ∷ u ∷ us else u ∷ insert_tracklet t us

unfoldable pub find : ℕ → List Tracklet → Option Tracklet
find id [] = none
find id (t ∷ ts) = if t.in_id == id then some t else find id ts

-- `t->age = 0` for the tracklet of `id`.
unfoldable pub rejuvenate : ℕ → List Tracklet → List Tracklet
rejuvenate id [] = []
rejuvenate id (t ∷ ts) = if t.in_id == id then record t { age = 0 } ∷ ts else t ∷ rejuvenate id ts

-- `count` ids from `min` on.
unfoldable pub ids_from : ℕ → ℕ → List ℕ
ids_from min zero = []
ids_from min (suc count) = min ∷ ids_from (suc min) count

-- `none` where one of the assertions fails.
unfoldable pub make : ℕ → ℕ → ℕ → Option UniqueIdTracker
unfolding ids_from
make min max ttl =
    if ltb min max && leb 1 ttl
    then some (record { ttl = ttl; assigned = []; free = ids_from min (max + 1 - min) })
    else none

-- `assign`, with what the map holds for `id`. `none` is the exception.
unfoldable pub assign_with : Option Tracklet → ℕ → UniqueIdTracker → Option ℕ × UniqueIdTracker
unfolding rejuvenate insert_tracklet
assign_with (some t) id u = (some t.out_id, record u { assigned = rejuvenate id u.assigned })
assign_with none id u = elim u.free [
  | [] ↦ (none, u)
  | (out ∷ rest) ↦ (
    some out,
    record u {
      assigned = insert_tracklet (record { in_id = id; out_id = out; age = 0 }) u.assigned;
      free = rest;
    },
  )
]

unfoldable pub assign : ℕ → UniqueIdTracker → Option ℕ × UniqueIdTracker
unfolding find assign_with
assign id u = assign_with (find id u.assigned) id u

-- The loop of `next_cycle`: what stays assigned, what is free, and what the observers are told.
unfoldable pub sweep : ℕ → List Tracklet → List ℕ → List Tracklet × List ℕ × List (ℕ × ℕ)
unfolding insert_id
sweep ttl [] free = ([], free, [])
sweep ttl (t ∷ ts) free =
    if leb ttl t.age
    then (let (kept, free', told) = sweep ttl ts (insert_id t.out_id free) in
        (kept, free', (t.in_id, t.out_id) ∷ told))
    else (let (kept, free', told) = sweep ttl ts free in
        (record t { age = t.age + 1 } ∷ kept, free', told))

unfoldable pub next_cycle : UniqueIdTracker → UniqueIdTracker × List (ℕ × ℕ)
unfolding sweep
next_cycle u =
    let (kept, free', told) = sweep u.ttl u.assigned u.free in
    (record u { assigned = kept; free = free' }, told)

-- How often an id is free, and how often it is given out.
abbrev pub one_if : Bool → ℕ
one_if true = 1
one_if false = 0

abbrev pub times_free : ℕ → List ℕ → ℕ
times_free o [] = 0
times_free o (n ∷ ns) = one_if (n == o) + times_free o ns

abbrev pub times_out : ℕ → List Tracklet → ℕ
times_out o [] = 0
times_out o (t ∷ ts) = one_if (t.out_id == o) + times_out o ts

-- Each id of the range is either free or given out, and just once; no other id is.
pub IsPartition : ℕ → ℕ → UniqueIdTracker → Type 0
IsPartition min max u =
    (o : ℕ) → times_out o u.assigned + times_free o u.free ≡ one_if (leb min o && leb o max)

times_free-ids_from :
    (o min count : ℕ)
    → times_free o (ids_from min count) ≡ one_if (leb min o && ltb o (min + count))
unfolding ids_from
times_free-ids_from o min zero = ground arith
times_free-ids_from o min (suc count) = ground (arith, times_free-ids_from o (suc min) count)

times_free-insert_id :
    (o n : ℕ) (ns : List ℕ) → times_free o (insert_id n ns) ≡ one_if (n == o) + times_free o ns
unfolding insert_id
times_free-insert_id o n [] = refl
times_free-insert_id o n (m ∷ ms) = ground (arith, times_free-insert_id o n ms)

times_out-insert_tracklet :
    (o : ℕ) (t : Tracklet) (ts : List Tracklet)
    → times_out o (insert_tracklet t ts) ≡ one_if (t.out_id == o) + times_out o ts
unfolding insert_tracklet
times_out-insert_tracklet o t [] = refl
times_out-insert_tracklet o t (u ∷ us) = ground (arith, times_out-insert_tracklet o t us)

times_out-rejuvenate :
    (o id : ℕ) (ts : List Tracklet) → times_out o (rejuvenate id ts) ≡ times_out o ts
unfolding rejuvenate
times_out-rejuvenate o id [] = refl
times_out-rejuvenate o id (t ∷ ts) = ground (arith, times_out-rejuvenate o id ts)

sweep-conserves :
    (o ttl : ℕ) (ts : List Tracklet) (free : List ℕ)
    → times_out o (sweep ttl ts free).0 + times_free o (sweep ttl ts free).1
      ≡ times_out o ts + times_free o free
unfolding sweep
sweep-conserves o ttl [] free = refl
sweep-conserves o ttl (t ∷ ts) free = ground (
  arith,
  times_free-insert_id o t.out_id free,
  sweep-conserves o ttl ts (insert_id t.out_id free),
  sweep-conserves o ttl ts free,
)

-- A new tracker has all the ids from `min` to `max` free.
make-IsPartition :
    (min max ttl : ℕ) (u : UniqueIdTracker) → make min max ttl ≡ some u → IsPartition min max u
unfolding make IsPartition
make-IsPartition min max ttl u e o = ground (arith, times_free-ids_from o min (max + 1 - min))

assign-conserves :
    (o id ttl : ℕ) (f : Option Tracklet) (ts : List Tracklet) (free : List ℕ)
    → let u = assign_with f id (record { ttl = ttl; assigned = ts; free = free }) in
      times_out o u.1.assigned + times_free o u.1.free ≡ times_out o ts + times_free o free
unfolding assign_with
assign-conserves o id ttl (some t) ts free = omega (arith, times_out-rejuvenate o id ts)
assign-conserves o id ttl none ts [] = refl
assign-conserves o id ttl none ts (out ∷ rest) =
    omega (arith, times_out-insert_tracklet o (record { in_id = id; out_id = out; age = 0 }) ts)

-- Whether an id is given out, found again or refused, the ids stay divided into the free ones and
-- those given out.
assign-IsPartition :
    (min max id : ℕ) (u : UniqueIdTracker)
    → IsPartition min max u
    → IsPartition min max (assign id u).1
unfolding assign IsPartition
assign-IsPartition min max id u h o =
    assign-conserves o id u.ttl (find id u.assigned) u.assigned u.free ∙ h o

-- The end of a cycle gives back the ids that have expired, and loses or doubles none.
next_cycle-IsPartition :
    (min max : ℕ) (u : UniqueIdTracker)
    → IsPartition min max u
    → IsPartition min max (next_cycle u).0
unfolding next_cycle IsPartition
next_cycle-IsPartition min max u h o = sweep-conserves o u.ttl u.assigned u.free ∙ h o

-- The trackers of a range and a time to live: a new one, and what any sequence of assignments and
-- ends of cycles makes of it.
pub data Reachable (min max ttl : ℕ) : UniqueIdTracker → Type 0 where
  begin : (u : UniqueIdTracker) → make min max ttl ≡ some u → Reachable min max ttl u
  by_assign :
      (id : ℕ) (u : UniqueIdTracker)
      → Reachable min max ttl u
      → Reachable min max ttl (assign id u).1
  by_next_cycle :
      (u : UniqueIdTracker) → Reachable min max ttl u → Reachable min max ttl (next_cycle u).0

-- In whatever order ids are assigned, found again, refused and given back at the end of a cycle,
-- each id of the range is either free or given out, and just once, and no other id is.
pub Reachable-IsPartition :
    (min max ttl : ℕ) (u : UniqueIdTracker) → Reachable min max ttl u → IsPartition min max u
Reachable-IsPartition min max ttl u (begin u₀ e) = make-IsPartition min max ttl u₀ e
Reachable-IsPartition min max ttl u (by_assign id u₀ r) =
    assign-IsPartition min max id u₀ (Reachable-IsPartition min max ttl u₀ r)
Reachable-IsPartition min max ttl u (by_next_cycle u₀ r) =
    next_cycle-IsPartition min max u₀ (Reachable-IsPartition min max ttl u₀ r)

abbrev pub cycles : ℕ → UniqueIdTracker → UniqueIdTracker
cycles zero u = u
cycles (suc n) u = cycles n (next_cycle u).0

sweep-find :
    (ttl id : ℕ) (ts : List Tracklet) (free : List ℕ) (t : Tracklet)
    → find id ts ≡ some t
    → t.age < ttl
    → find id (sweep ttl ts free).0 ≡ some (record t { age = t.age + 1 })
unfolding sweep find
sweep-find ttl id [] free t e l = cc
sweep-find ttl id (u ∷ us) free t e l =
    ground (arith, sweep-find ttl id us (insert_id u.out_id free) t, sweep-find ttl id us free t)

cycles-find :
    (n id : ℕ) (u : UniqueIdTracker) (t : Tracklet)
    → find id u.assigned ≡ some t
    → t.age + n ≤ u.ttl
    → find id (cycles n u).assigned ≡ some (record t { age = t.age + n })
unfolding next_cycle
cycles-find zero id u t e l = e ∙ ap (λ a. some (record t { age = a })) (omega arith)
cycles-find (suc n) id u t e l =
    cycles-find n id (next_cycle u).0 (record t { age = t.age + 1 })
      (sweep-find u.ttl id u.assigned u.free t e (omega arith)) (omega arith)
    ∙ ap (λ a. some (record t { age = a })) (omega arith)

find-rejuvenate :
    (id : ℕ) (ts : List Tracklet) (t : Tracklet)
    → find id ts ≡ some t
    → find id (rejuvenate id ts) ≡ some (record t { age = 0 })
unfolding find rejuvenate
find-rejuvenate id [] t e = cc
find-rejuvenate id (u ∷ us) t e = ground (arith, find-rejuvenate id us t)

find-insert_tracklet :
    (t : Tracklet) (ts : List Tracklet)
    → find t.in_id ts ≡ none
    → find t.in_id (insert_tracklet t ts) ≡ some t
unfolding find insert_tracklet
find-insert_tracklet t [] e = ground arith
find-insert_tracklet t (u ∷ us) e = ground (arith, find-insert_tracklet t us)

assign_with-find :
    (id ttl : ℕ) (f : Option Tracklet) (ts : List Tracklet) (free : List ℕ) (out : ℕ)
    → find id ts ≡ f
    → let u = assign_with f id (record { ttl = ttl; assigned = ts; free = free }) in
      u.0 ≡ some out
      → (t : Tracklet) × (find id u.1.assigned ≡ some t)
        × (t.out_id ≡ out)
        × (t.age ≡ 0)
        × (u.1.ttl ≡ ttl)
unfolding assign_with
assign_with-find id ttl (some t) ts free out e h =
    (record t { age = 0 }, find-rejuvenate id ts t e, cc, refl, refl)
assign_with-find id ttl none ts [] out e h = cc
assign_with-find id ttl none ts (o ∷ rest) out e h = (
  record { in_id = id; out_id = o; age = 0 },
  find-insert_tracklet (record { in_id = id; out_id = o; age = 0 }) ts e,
  cc,
  refl,
  refl,
)

-- An object keeps its id: when an id has been assigned, then after any number of cycles up to the
-- time to live without seeing the object, assigning it again gives the same id.
pub assign-cycles :
    (id n out : ℕ) (u : UniqueIdTracker)
    → (assign id u).0 ≡ some out
    → n ≤ u.ttl
    → (assign id (cycles n (assign id u).1)).0 ≡ some out
unfolding assign assign_with
assign-cycles id n out u h l =
    let (t, e, o, z, k) =
      assign_with-find id u.ttl (find id u.assigned) u.assigned u.free out refl h in
    let v = cycles n (assign id u).1 in
    ap (λ f. (assign_with f id v).0) (cycles-find n id (assign id u).1 t e (omega arith))
    ∙ ap some o
