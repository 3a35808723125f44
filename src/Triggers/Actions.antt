-- ===== src/Triggers/Actions.antt =====
-- Actions that are made of others, or insert triggers:
-- runtime/src/cloe/trigger/example_actions.cpp. An action of another class is a number, and what it
-- does is an argument, as is what the registrar makes of a configuration. None stands for a null
-- pointer that is read.
use cloe.Prelude.{
  ℕ, ◌≡◌, refl, Bool, true, false, Option, none, some, List, [], ◌∷◌, ◌++◌, ◌||◌, ◌&&◌, arith,
}
use cloe.Triggers.Types.{CallbackResult, proceed, unpin}

mutual
  pub data Action : Type 0 where
    log : ℕ → Action
    other : ℕ → Bool → Action
    bundle : Actions → Action
    insert : List ℕ → Action
    push_release : ℕ → Pointer → Pointer → Action

  pub data Actions : Type 0 where
    no_actions : Actions
    action : Action → Actions → Actions

  -- A `unique_ptr`, or what a move has left of it.
  pub data Pointer : Type 0 where
    moved : Pointer
    owned : Action → Pointer

-- `is_significant`.
unfoldable mutual
  pub is_significant : Action → Bool
  is_significant (log n) = false
  is_significant (other n significant) = significant
  is_significant (bundle xs) = any_significant xs
  is_significant (insert ts) = true
  is_significant (push_release d p r) = true

  pub any_significant : Actions → Bool
  any_significant no_actions = false
  any_significant (action a xs) = is_significant a || any_significant xs

unfoldable pub and_action : Option Action → Option Actions → Option Actions
and_action (some a) (some xs) = some (action a xs)
and_action (some a) none = none
and_action none xs = none

unfoldable pub as_bundle : Option Actions → Option Action
as_bundle none = none
as_bundle (some xs) = some (bundle xs)

unfoldable pub both_owned : ℕ → Option Action → Option Action → Option Action
both_owned d (some p) (some r) = some (push_release d (owned p) (owned r))
both_owned d (some p) none = none
both_owned d none r = none

unfoldable mutual
  unfolding and_action as_bundle both_owned

  pub clone : Action → Option Action
  clone (log n) = some (log n)
  clone (other n significant) = some (other n significant)
  clone (bundle xs) = as_bundle (clone_all xs)
  clone (insert ts) = some (insert ts)
  clone (push_release d p r) = both_owned d (clone_owned p) (clone_owned r)

  pub clone_all : Actions → Option Actions
  clone_all no_actions = some no_actions
  clone_all (action a xs) = and_action (clone a) (clone_all xs)

  pub clone_owned : Pointer → Option Action
  clone_owned moved = none
  clone_owned (owned a) = clone a

-- What is inserted: a trigger made of a configuration, or one of an action, after a time.
pub data Inserted : Type 0 where
  made : ℕ → Inserted
  next : ℕ → Pointer → Inserted

unfoldable pub made_all : List ℕ → List Inserted
made_all [] = []
made_all (t ∷ ts) = made t ∷ made_all ts

-- The result of a bundle, from that of an action and of those behind it.
unfoldable pub or_unpin : CallbackResult → CallbackResult → CallbackResult
or_unpin proceed later = later
or_unpin unpin later = unpin

pub record Ran (T : Type 0) (W : Type 0) : Type 0 where
  pub result : CallbackResult
  pub left : T
  pub inserted : List Inserted
  pub world : W

unfoldable pub then_bundle : {W : Type 0} → Ran Action W → Ran Actions W → Ran Actions W
unfolding or_unpin
then_bundle r rs = record {
  result = or_unpin r.result rs.result;
  left = action r.left rs.left;
  inserted = r.inserted ++ rs.inserted;
  world = rs.world;
}

-- The call of an action, where the registrar makes all of the triggers.
unfoldable mutual
  unfolding then_bundle made_all

  pub run : {W : Type 0} → (ℕ → W → CallbackResult × W) → Action → W → Ran Action W
  run call (log n) w = record { result = proceed; left = log n; inserted = []; world = w }
  run call (other n s) w = record {
    result = (call n w).0;
    left = other n s;
    inserted = [];
    world = (call n w).1;
  }
  run call (bundle xs) w =
      let rs = run_all call xs w in
      record { result = rs.result; left = bundle rs.left; inserted = rs.inserted; world = rs.world }
  run call (insert ts) w = record {
    result = proceed;
    left = insert ts;
    inserted = made_all ts;
    world = w;
  }
  run call (push_release d p r) w = record {
    result = proceed;
    left = push_release d moved moved;
    inserted = next 0 p ∷ next d r ∷ [];
    world = w;
  }

  pub run_all : {W : Type 0} → (ℕ → W → CallbackResult × W) → Actions → W → Ran Actions W
  run_all call no_actions w = record {
    result = proceed;
    left = no_actions;
    inserted = [];
    world = w;
  }
  run_all call (action a xs) w = then_bundle (run call a w) (run_all call xs (run call a w).world)

-- No pointer is null.
unfoldable mutual
  pub is_whole : Action → Bool
  is_whole (bundle xs) = all_whole xs
  is_whole (push_release d p r) = has_action p && has_action r
  is_whole a = true

  pub all_whole : Actions → Bool
  all_whole no_actions = true
  all_whole (action a xs) = is_whole a && all_whole xs

  pub has_action : Pointer → Bool
  has_action moved = false
  has_action (owned a) = is_whole a

and-both : (a b : Bool) → (a && b) ≡ true → (a ≡ true) × (b ≡ true)
and-both a b h = ground (arith, h)

both_whole :
    (d : ℕ) (p r : Pointer)
    → ((a : Action) × (p ≡ owned a) × (clone_owned p ≡ some a))
    → ((a : Action) × (r ≡ owned a) × (clone_owned r ≡ some a))
    → both_owned d (clone_owned p) (clone_owned r) ≡ some (push_release d p r)
unfolding both_owned
both_whole d p r (a, made_p, e) (b, made_r, f) = rw (e, f, made_p, made_r) refl

mutual
  unfolding clone is_whole

  clone_whole : (a : Action) → is_whole a ≡ true → clone a ≡ some a
  clone_whole (log n) h = refl
  clone_whole (other n s) h = refl
  clone_whole (bundle xs) h = rw (clone_all_whole xs h) refl
  clone_whole (insert ts) h = refl
  clone_whole (push_release d p r) h =
      let (pushed, released) = and-both (has_action p) (has_action r) h in
      both_whole d p r (clone_owned_whole p pushed) (clone_owned_whole r released)

  clone_all_whole : (xs : Actions) → all_whole xs ≡ true → clone_all xs ≡ some xs
  clone_all_whole no_actions h = refl
  clone_all_whole (action a xs) h =
      let (first, later) = and-both (is_whole a) (all_whole xs) h in
      rw (clone_whole a first, clone_all_whole xs later) refl

  clone_owned_whole :
      (p : Pointer) → has_action p ≡ true → (a : Action) × (p ≡ owned a) × (clone_owned p ≡ some a)
  clone_owned_whole moved h = cc
  clone_owned_whole (owned a) h = (a, refl, clone_whole a h)

-- An action without null pointers is copied to an equal one. An action that pushes and releases has
-- given its actions away once it has been run, and a copy of it then reads a null pointer.
pub clone-run :
    {W : Type 0} (call : ℕ → W → CallbackResult × W) (a : Action) (w : W) (d : ℕ) (p r : Pointer)
    → is_whole a ≡ true
    → (clone a ≡ some a) × (clone (run call (push_release d p r) w).left ≡ none)
unfolding run clone
clone-run call a w d p r whole = (clone_whole a whole, refl)
