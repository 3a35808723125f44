-- ===== src/Hmi/Rounding.antt =====
-- `round_step` of plugins/basic/src/hmi_contact.hpp, for integers.
use native.Mathlib.Nat.{div-add-mod, mod-lt}
use cloe.Prelude.{ℕ, ◌+◌, ◌-◌, ◌*◌, ◌%◌, ◌/◌, ◌≤◌, ◌<◌, ◌≡◌, ◌==◌, if◌then◌else◌, arith}

-- For a target that is not negative and an increment that is positive.
unfoldable pub round_step : ℕ → ℕ → ℕ
round_step target increment =
    let rem = target % increment in
    if rem == 0 then target + increment else target + (increment - rem)

-- The step ends on the multiple of the increment that follows the one at or below the target, and
-- so above the target and at most one increment above it.
pub round_step-least :
    (target increment : ℕ)
    → 0 < increment
    → (round_step target increment ≡ (target / increment + 1) * increment)
      × (target < round_step target increment)
      × (round_step target increment ≤ target + increment)
unfolding round_step
round_step-least target increment p =
    let d = div-add-mod target increment in
    let r = mod-lt target p in (ground (arith, d, r), ground (arith, r), ground (arith, r))
