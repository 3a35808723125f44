-- ===== src/Engine/Foreach.antt =====
-- The loops over the models: simulation_context.cpp.
use cloe.Prelude.{ℕ, Bool, true, false, List, [], ◌∷◌, if◌then◌else◌}
use cloe.Engine.Types.{Kind, controller, vehicle, simulator}
use cloe.Engine.Monad.{Engine, pure, gets, ◌>>=◌}

module _ {W : Type 0} where
  unfoldable pub foreach : List ℕ → (ℕ → Engine W Bool) → Engine W Bool
  foreach [] f = pure true
  foreach (x ∷ xs) f = do good ← f x; if good then foreach xs f else pure false

  unfoldable pub foreach_simulator : (ℕ → Engine W Bool) → Engine W Bool
  foreach_simulator f = do names ← gets (λ c. c.simulators); foreach names f

  unfoldable pub foreach_vehicle : (ℕ → Engine W Bool) → Engine W Bool
  foreach_vehicle f = do names ← gets (λ c. c.vehicles); foreach names f

  unfoldable pub foreach_controller : (ℕ → Engine W Bool) → Engine W Bool
  foreach_controller f = do names ← gets (λ c. c.controllers); foreach names f

  -- `if (!ok) return false;` in front of the rest of a loop.
  unfoldable pub and_then : Bool → Engine W Bool → Engine W Bool
  and_then good m = if good then m else pure false

  -- Controllers, then vehicles, then simulators, up to the first that answers `false`.
  unfoldable pub foreach_model : (Kind → ℕ → Engine W Bool) → Engine W Bool
  foreach_model f = do
    good ← foreach_controller (f controller)
    fine ← and_then good (foreach_vehicle (f vehicle))
    and_then fine (foreach_simulator (f simulator))
