-- ===== src/Triggers/Conservation.antt =====
-- What becomes of the queued triggers in the coordinator of engine/src/coordinator.cpp, also when
-- an exception ends their processing.
use cloe.Prelude.{
  ℕ, ◌+◌, ◌≡◌, ◌⊎◌, String, false, Option, none, some, List, [], ◌∷◌, ◌++◌, is_some, lookup, length,
}
use cloe.Triggers.Types.{Trigger}
use cloe.Triggers.Coordinator.{Coordinator, stored, for_event}

-- The queue is split: a first part of it has been stored, each trigger with its event, and the rest
-- is still queued. Either nothing is left, and the count is right, or there is an exception, and
-- the first trigger that is left has an event that is not registered.
pub record Split (now count : ℕ) (ts : List Trigger) (c : Coordinator) (r : Option ℕ × Coordinator)
    : Type 0 where
  pub done : List Trigger
  pub left : List Trigger
  pub whole : ts ≡ done ++ left
  pub queued : r.1.input_queue ≡ left
  pub distributed :
      (key : String) → stored key r.1.storage ≡ stored key c.storage ++ for_event key now done
  pub ends :
      ((left ≡ []) × (r.0 ≡ some (count + length done)))
      ⊎ ((r.0 ≡ none)
          × (t : Trigger) × (rest : List Trigger) × (left ≡ t ∷ rest)
          × (is_some (lookup t.event_name r.1.storage) ≡ false))
