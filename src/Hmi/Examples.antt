-- ===== src/Hmi/Examples.antt =====
-- Examples of the properties of the contacts.
use cloe.Prelude.{
  ℕ, suc, ◌+◌, ◌-◌, ◌*◌, ◌<◌, ◌≡◌, ◌⊎◌, Bool, true, false, not, none, some, [], ◌∷◌, arith,
}
use cloe.Hmi.Switches.{
  Switch, updates-on_changes, update_switch, make_switch, update_switch-make_switch,
}
use cloe.Hmi.Buttons.{PushButton, make_button, updates-clicks}
use cloe.Hmi.Repeats.{pressed, Apart, repeat_times, updates-spacing}
use cloe.Hmi.Switches
use cloe.Hmi.Buttons

updates-on_changes_example :
    Switches.updates
      (λ n. n + 1)
      (λ n. n + 10)
      (true ∷ true ∷ false ∷ [])
      (record { active = false; target = 0 })
    ≡ some (record { active = false; target = 11 })
updates-on_changes_example =
    updates-on_changes (λ n. n + 1) (λ n. n + 10) (true ∷ true ∷ false ∷ []) false 0

updates-clicks_example :
    (r : PushButton Bool) × (Buttons.updates not none
        ((1, true) ∷ (2, true) ∷ (3, false) ∷ [])
        (make_button false)
      ≡ some r)
    × (r.active ≡ false)
    × (r.target ≡ true)
updates-clicks_example = updates-clicks not ((1, true) ∷ (2, true) ∷ (3, false) ∷ []) false

updates-spacing_example :
    ((r : PushButton ℕ) × (Buttons.updates
          (λ x. x)
          (some suc)
          (pressed (5 ∷ 600_000_000 ∷ []))
          (make_button 0)
        ≡ some r)
      × ((r.target ≡ 0) ⊎ (5 + 500_000_000 + (r.target - 1) * 250_000_000 < 600_000_001)))
    × Apart 5 500_000_000 250_000_000 (repeat_times (5 ∷ 600_000_000 ∷ []) (make_button 0))
updates-spacing_example =
    updates-spacing 5 600_000_001 (600_000_000 ∷ []) (omega arith, omega arith)
