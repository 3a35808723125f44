-- ===== src/Hmi/Switches.antt =====
-- `Contact` and `Switch`, and the switch of a Boolean variable.
use cloe.Prelude.{
  ◌≡◌, refl, Bool, true, false, ◌||◌, Option, none, some, List, [], ◌∷◌, if◌then◌else◌,
}

-- `Contact::update`: the dispatch on the state of the contact.
unfoldable pub dispatch :
    {S : Type 0} → Bool → Bool → (S → Option S) → (S → Option S) → S → Option S
dispatch active down contact_down contact_up s =
    if active || down then (if down then contact_down s else contact_up s) else some s

-- `active_`, with the variable that the functions change.
pub record Switch (X : Type 0) : Type 0 where
  pub active : Bool
  pub target : X

module _ {X : Type 0} (set_fn unset_fn : X → X) where
  unfoldable pub switch_down : Switch X → Option (Switch X)
  switch_down s = some (if s.active then s else record { active = true; target = set_fn s.target })

  unfoldable pub switch_up : Switch X → Option (Switch X)
  switch_up s =
      if s.active then some (record { active = false; target = unset_fn s.target }) else none

  unfoldable pub update : Bool → Switch X → Option (Switch X)
  unfolding dispatch switch_down switch_up
  update down s = dispatch s.active down switch_down switch_up s

  unfoldable pub updates : List Bool → Switch X → Option (Switch X)
  updates [] s = some s
  updates (b ∷ bs) s = elim (update b s) [ none ↦ none | some s' ↦ updates bs s' ]

  -- The effect of the switch, without its state: the functions run at the changes alone.
  abbrev pub on_change : Bool → Bool → X → X
  on_change true true x = x
  on_change true false x = unset_fn x
  on_change false true x = set_fn x
  on_change false false x = x

  abbrev pub on_changes : Bool → List Bool → X → X
  on_changes a [] x = x
  on_changes a (b ∷ bs) x = on_changes b bs (on_change a b x)

  abbrev pub last : Bool → List Bool → Bool
  last a [] = a
  last a (b ∷ bs) = last b bs

  -- Over any sequence of button states, no assertion fails, the switch ends with the contact as it
  -- was last pressed, and the set and unset functions run exactly at the changes, in their order.
  pub updates-on_changes :
      (bs : List Bool) (a : Bool) (x : X)
      → updates bs (record { active = a; target = x })
        ≡ some (record { active = last a bs; target = on_changes a bs x })
  unfolding updates update
  updates-on_changes [] a x = refl
  updates-on_changes (true ∷ bs) true x = updates-on_changes bs true x
  updates-on_changes (false ∷ bs) true x = updates-on_changes bs false (unset_fn x)
  updates-on_changes (true ∷ bs) false x = updates-on_changes bs true (set_fn x)
  updates-on_changes (false ∷ bs) false x = updates-on_changes bs false x

-- `make_switch`.
unfoldable pub make_switch : Bool → Switch Bool
make_switch b = record { active = b; target = b }

unfoldable pub update_switch : List Bool → Switch Bool → Option (Switch Bool)
unfolding updates
update_switch = updates (λ b. true) (λ b. false)

-- The variable of a switch follows the contact: after any sequence of updates both are as the
-- button was last.
pub update_switch-make_switch :
    (bs : List Bool) (b : Bool)
    → update_switch bs (make_switch b) ≡ some (make_switch (last (λ b. true) (λ b. false) b bs))
unfolding update_switch make_switch update
update_switch-make_switch [] b = refl
update_switch-make_switch (true ∷ bs) true = update_switch-make_switch bs true
update_switch-make_switch (false ∷ bs) true = update_switch-make_switch bs false
update_switch-make_switch (true ∷ bs) false = update_switch-make_switch bs true
update_switch-make_switch (false ∷ bs) false = update_switch-make_switch bs false
