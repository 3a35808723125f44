-- ===== src/Hmi/Buttons.antt =====
-- `PushButton`. Times are counts of nanoseconds, and do not run backwards.
use cloe.Prelude.{
  ℕ, ◌-◌, ◌≡◌, refl, Bool, true, false, not, Option, none, some, List, [], ◌∷◌, ltb, if◌then◌else◌,
}
use cloe.Hmi.Switches.{dispatch}

-- `active_`, `last_event_` and `repeated_`, the two times that can be set, and the variable.
pub record PushButton (X : Type 0) : Type 0 where
  pub active : Bool
  pub last_event : ℕ
  pub repeated : Bool
  pub delay : ℕ
  pub interval : ℕ
  pub target : X

unfoldable pub make_button : {X : Type 0} → X → PushButton X
make_button x = record {
  active = false;
  last_event = 0;
  repeated = false;
  delay = 500_000_000;
  interval = 250_000_000;
  target = x;
}

module _ {X : Type 0} where
  -- The part of `contact_down` for a button that is down already.
  unfoldable pub hold : Option (X → X) → ℕ → PushButton X → PushButton X
  hold none time s = s
  hold (some f) time s =
      if s.repeated
      then (if ltb s.interval (time - s.last_event)
          then record s { target = f s.target; last_event = time }
          else s)
      else if ltb s.delay (time - s.last_event)
      then record s { target = f s.target; last_event = time; repeated = true }
      else s

  unfoldable pub reset : PushButton X → PushButton X
  reset s = record s { active = false; repeated = false; last_event = 0 }

module _ {X : Type 0} (single : X → X) (repeat : Option (X → X)) where
  unfoldable pub button_down : ℕ → PushButton X → Option (PushButton X)
  unfolding hold
  button_down time s =
      some
        (if not s.active then record s { active = true; last_event = time } else hold repeat time s)

  unfoldable pub button_up : PushButton X → Option (PushButton X)
  unfolding reset
  button_up s =
      if s.active
      then some (reset (if not s.repeated then record s { target = single s.target } else s))
      else none

  unfoldable pub update : ℕ → Bool → PushButton X → Option (PushButton X)
  unfolding dispatch button_down button_up
  update time down s = dispatch s.active down (button_down time) button_up s

  unfoldable pub updates : List (ℕ × Bool) → PushButton X → Option (PushButton X)
  updates [] s = some s
  updates ((time, down) ∷ es) s = elim (update time down s) [
    | none ↦ none
    | some s' ↦ updates es s'
  ]

-- A button that does not repeat, without its state: a click at each release.
abbrev pub clicks : {X : Type 0} → (X → X) → Bool → List (ℕ × Bool) → X → X
clicks single a [] x = x
clicks single true ((t, true) ∷ es) x = clicks single true es x
clicks single true ((t, false) ∷ es) x = clicks single false es (single x)
clicks single false ((t, b) ∷ es) x = clicks single b es x

abbrev pub last_down : Bool → List (ℕ × Bool) → Bool
last_down a [] = a
last_down a ((t, b) ∷ es) = last_down b es

module _ {X : Type 0} (single : X → X) where
  clicks_at :
      (es : List (ℕ × Bool)) (a : Bool) (l d i : ℕ) (x : X)
      → (r : PushButton X) × (updates single none es (record {
        active = a;
        last_event = l;
        repeated = false;
        delay = d;
        interval = i;
        target = x;
      })
          ≡ some r)
        × (r.active ≡ last_down a es)
        × (r.target ≡ clicks single a es x)
  unfolding updates update
  clicks_at [] a l d i x = (_, refl, refl, refl)
  clicks_at ((t, true) ∷ es) true l d i x = clicks_at es true l d i x
  clicks_at ((t, false) ∷ es) true l d i x = clicks_at es false 0 d i (single x)
  clicks_at ((t, true) ∷ es) false l d i x = clicks_at es true t d i x
  clicks_at ((t, false) ∷ es) false l d i x = clicks_at es false l d i x

  -- A button without a repeat function never fails an assertion, whatever the times and the
  -- states of the contact are: it clicks once at each release, and not while it is held.
  pub updates-clicks :
      (es : List (ℕ × Bool)) (x : X)
      → (r : PushButton X) × (updates single none es (make_button x) ≡ some r)
        × (r.active ≡ last_down false es)
        × (r.target ≡ clicks single false es x)
  unfolding make_button
  updates-clicks es x = clicks_at es false 0 500_000_000 250_000_000 x
