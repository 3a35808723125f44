-- ===== src/Triggers/Direct.antt =====
-- `DirectCallback` of runtime/include/cloe/registrar.hpp. `condition` is the event's call operator,
-- `execute` the call of the executer: they are parameters, as is the state `S` that they see and
-- change. An executed action may insert triggers into the list that is walked, at its end, as those
-- of Lua do; the walk comes to them too, and need not end, so that it has fuel.
use cloe.Prelude.{
  ℕ, zero, suc, ◌+◌, length, append_nil, ◌≡◌, refl, ap, sym, arith, ◌∙◌, Bool, true, false, not,
  ◌&&◌, List, [], ◌∷◌, ◌++◌, All, if◌then◌else◌,
}
use cloe.Triggers.Types.{Trigger, clone, CallbackResult, proceed, unpin}

unfoldable pub is_unpin : CallbackResult → Bool
is_unpin proceed = false
is_unpin unpin = true

-- What an execution gives back, the state that it leaves, and the triggers that it inserts.
pub record Executed (S : Type 0) : Type 0 where
  pub result : CallbackResult
  pub state : S
  pub inserted : List Trigger

-- The list and the state that a walk leaves; or the iterator has been moved past the end; or the
-- walk goes on.
pub data Walked (S : Type 0) : Type 0 where
  left : List Trigger → S → Walked S
  undefined out_of_fuel : Walked S

-- A trigger stays in the list, before what the rest of the walk leaves of it.
unfoldable pub keep : {S : Type 0} → Trigger → Walked S → Walked S
keep t (left ts s) = left (t ∷ ts) s
keep t undefined = undefined
keep t out_of_fuel = out_of_fuel

abbrev pub filter : (Trigger → Bool) → List Trigger → List Trigger
filter f [] = []
filter f (t ∷ ts) = if f t then t ∷ filter f ts else filter f ts

module _ {S : Type 0} (condition : Trigger → Bool) (execute : Trigger → S → Executed S) where
  -- The walk. With `true` the iterator stands in front of an element that `++it` passes over.
  unfoldable pub walk : ℕ → Bool → List Trigger → S → Walked S
  unfolding clone is_unpin keep
  walk zero skip ts s = out_of_fuel
  walk (suc n) true [] s = undefined
  walk (suc n) true (t ∷ ts) s = keep t (walk n false ts s)
  walk (suc n) false [] s = left [] s
  walk (suc n) false (t ∷ ts) s =
      let copy = execute (clone t) s in
      let own = execute t s in
      let skipped = walk n true (ts ++ copy.inserted) copy.state in
      let kept = walk n false (ts ++ copy.inserted) copy.state in
      let erased = walk n false (ts ++ own.inserted) own.state in
      let passed = walk n false ts s in
      if condition t
      then (if t.sticky then (if is_unpin copy.result then skipped else keep t kept) else erased)
      else keep t passed

  unfoldable pub trigger_all : ℕ → List Trigger → S → Walked S
  unfolding walk
  trigger_all n = walk n false

  -- The executions in the order of the list, of a copy where the trigger is sticky.
  abbrev pub instance_for : Trigger → Trigger
  unfolding clone
  instance_for t = if t.sticky then clone t else t

  abbrev pub run_due : List Trigger → S → S
  run_due [] s = s
  run_due (t ∷ ts) s = run_due ts (if condition t then (execute (instance_for t) s).state else s)

  -- No action asks to unpin its trigger.
  abbrev pub NeverUnpins : Trigger → Type 0
  NeverUnpins t = (s : S) → is_unpin (execute (clone t) s).result ≡ false

  -- No action inserts into the list.
  abbrev pub NeverInserts : Trigger → Type 0
  NeverInserts t = (s : S) → ((execute t s).inserted ≡ []) × ((execute (clone t) s).inserted ≡ [])

  abbrev pub stays : Trigger → Bool
  stays t = not (condition t && not t.sticky)

  abbrev pub prepend : List Trigger → Walked S → Walked S
  prepend [] o = o
  prepend (t ∷ ts) o = if stays t then keep t (prepend ts o) else prepend ts o

  keeps_list : (ts us : List Trigger) → us ≡ [] → ts ++ us ≡ ts
  keeps_list ts us e = ap (λ l. ts ++ l) e ∙ append_nil ts

  walk-append :
      (ts rest : List Trigger) (n m : ℕ) (s : S)
      → m ≡ length ts + n
      → All NeverUnpins ts
      → All NeverInserts ts
      → walk m false (ts ++ rest) s ≡ prepend ts (walk n false rest (run_due ts s))
  unfolding walk
  walk-append [] rest n m s e h k = let same : m ≡ n = omega (arith, e) in rw same refl
  walk-append (t ∷ ts) rest n zero s e h k = absurd (omega (arith, e))
  walk-append (t ∷ ts) rest n (suc m) s e h k =
      let fewer : m ≡ length ts + n = omega (arith, e) in
      rw
        (
          keeps_list (ts ++ rest) (execute t s).inserted (k.0 s).0,
          keeps_list (ts ++ rest) (execute (clone t) s).inserted (k.0 s).1,
        )
        (ground (
          arith,
          h.0 s,
          walk-append ts rest n m (execute (clone t) s).state fewer h.1 k.1,
          walk-append ts rest n m (execute t s).state fewer h.1 k.1,
          walk-append ts rest n m s fewer h.1 k.1,
        ))

  prepend-filter : (ts : List Trigger) (s : S) → prepend ts (left [] s) ≡ left (filter stays ts) s
  unfolding keep
  prepend-filter [] s = refl
  prepend-filter (t ∷ ts) s = ground (arith, prepend-filter ts s)

  -- If no action asks to unpin its trigger or inserts another one into the list, triggering is
  -- defined, ends, and visits each trigger once: the actions of all the triggers whose condition
  -- holds run in their order, and all the others and the sticky ones stay, in their order.
  pub trigger_all-filter :
      (ts : List Trigger) (s : S)
      → All NeverUnpins ts
      → All NeverInserts ts
      → trigger_all (length ts + 1) ts s ≡ left (filter stays ts) (run_due ts s)
  unfolding trigger_all walk
  trigger_all-filter ts s h k =
      ap (λ x. walk (length ts + 1) false x s) (sym (append_nil ts))
      ∙ walk-append ts [] 1 (length ts + 1) s refl h k
      ∙ prepend-filter ts (run_due ts s)

  prepend-undefined : (ts : List Trigger) → prepend ts undefined ≡ undefined
  unfolding keep
  prepend-undefined [] = refl
  prepend-undefined (t ∷ ts) = ground (arith, prepend-undefined ts)

  last_unpins :
      (t : Trigger) (s : S)
      → NeverInserts t
      → condition t ≡ true
      → t.sticky ≡ true
      → is_unpin (execute (clone t) s).result ≡ true
      → walk 2 false (t ∷ []) s ≡ undefined
  unfolding walk
  last_unpins t s k c sticky u = rw (c, sticky, u, (k s).1) refl

  -- If the action of the last trigger, a sticky one whose condition holds, asks to unpin it, and no
  -- action inserts a trigger into the list, then the walk moves its iterator past the end: its
  -- behaviour is undefined.
  pub trigger_all-undefined :
      (ts : List Trigger) (t : Trigger) (s : S)
      → All NeverUnpins ts
      → All NeverInserts ts
      → NeverInserts t
      → condition t ≡ true
      → t.sticky ≡ true
      → is_unpin (execute (clone t) (run_due ts s)).result ≡ true
      → trigger_all (length ts + 2) (ts ++ t ∷ []) s ≡ undefined
  unfolding trigger_all
  trigger_all-undefined ts t s h ks k c sticky u =
      walk-append ts (t ∷ []) 2 (length ts + 2) s refl h ks
      ∙ ap (prepend ts) (last_unpins t (run_due ts s) k c sticky u)
      ∙ prepend-undefined ts
