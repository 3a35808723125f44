-- ===== src/Triggers/History.antt =====
-- `Coordinator::execute_trigger` of engine/src/coordinator.cpp, as the executer of a callback. The
-- action is a parameter, with a state `W` of its own.
use cloe.Prelude.{
  append_one, append_nil, ℕ, ◌≡◌, refl, ap, sym, ◌∙◌, Bool, true, false, not, ◌&&◌, List, [], ◌∷◌,
  ◌++◌, if◌then◌else◌, All, length, ◌+◌,
}
use cloe.Triggers.Types.{Trigger, clone}
use cloe.Triggers.Direct.{
  Executed, left, filter, stays, trigger_all, run_due, NeverUnpins, NeverInserts,
  trigger_all-filter,
}

-- The history, with the time of each entry.
pub record Log (W : Type 0) : Type 0 where
  pub world : W
  pub history : List (ℕ × Trigger)

module _ {W : Type 0} (action : Trigger → W → Executed W) (now : ℕ) where
  unfoldable pub execute_trigger : Trigger → Log W → Executed (Log W)
  execute_trigger t l =
      let r = action t l.world in
      record {
        result = r.result;
        state = record {
          world = r.state;
          history = if not t.conceal then l.history ++ (now, t) ∷ [] else l.history;
        };
        inserted = r.inserted;
      }

-- What the history holds of the triggers that ran: a sticky one leaves its copy, concealed or not.
abbrev pub recorded : (Trigger → Bool) → ℕ → List Trigger → List (ℕ × Trigger)
recorded condition now [] = []
recorded condition now (t ∷ ts) =
    if condition t && t.sticky
    then (now, clone t) ∷ recorded condition now ts
    else if condition t && not t.conceal
    then (now, t) ∷ recorded condition now ts
    else recorded condition now ts

module _ {W : Type 0} (action : Trigger → W → Executed W) (now : ℕ)
    (condition : Trigger → Bool) where
  -- One trigger, whose condition, stickiness and concealment are known.
  abbrev entry : Bool → Bool → Bool → Trigger → List (ℕ × Trigger) → List (ℕ × Trigger)
  unfolding clone
  entry false k h t rest = rest
  entry true true h t rest = (now, clone t) ∷ rest
  entry true false true t rest = rest
  entry true false false t rest = (now, t) ∷ rest

  recorded-entry :
      (c k h : Bool) (t : Trigger) (rest : List (ℕ × Trigger))
      → (if c && k then (now, clone t) ∷ rest else if c && not h then (now, t) ∷ rest else rest)
        ≡ entry c k h t rest
  unfolding entry
  recorded-entry false k h t rest = refl
  recorded-entry true true h t rest = refl
  recorded-entry true false true t rest = refl
  recorded-entry true false false t rest = refl

  history-step :
      (c k h : Bool) (t : Trigger) (l : Log W) (rest : List (ℕ × Trigger))
      → t.conceal ≡ h
      → (if c then (execute_trigger action now (if k then clone t else t) l).state else l).history
          ++ rest
        ≡ l.history ++ entry c k h t rest
  unfolding execute_trigger clone entry
  history-step false k h t l rest e = refl
  history-step true true h t l rest e = append_one l.history (now, clone t) rest
  history-step true false true t l rest e =
      ap (λ b. (if not b then l.history ++ (now, t) ∷ [] else l.history) ++ rest) e
  history-step true false false t l rest e =
      ap (λ b. (if not b then l.history ++ (now, t) ∷ [] else l.history) ++ rest) e
      ∙ append_one l.history (now, t) rest

  run_due-history :
      (ts : List Trigger) (l : Log W)
      → (run_due condition (execute_trigger action now) ts l).history
        ≡ l.history ++ recorded condition now ts
  unfolding execute_trigger clone
  run_due-history [] l = sym (append_nil l.history)
  run_due-history (t ∷ ts) l =
      run_due-history ts (
        if condition t
        then (execute_trigger action now (if t.sticky then clone t else t) l).state
        else l)
      ∙ history-step (condition t) t.sticky t.conceal t l (recorded condition now ts) refl
      ∙ ap (λ r. l.history ++ r)
          (sym (recorded-entry (condition t) t.sticky t.conceal t (recorded condition now ts)))

  -- Where no action asks to unpin its trigger or inserts another one into the list that is walked,
  -- the walk over the triggers of a callback adds to the history, in their order and with the time,
  -- the triggers that ran and are not concealed, and also a copy of each sticky one that ran, even
  -- if it is concealed.
  pub trigger_all-history :
      (ts : List Trigger) (l : Log W)
      → All (NeverUnpins condition (execute_trigger action now)) ts
      → All (NeverInserts condition (execute_trigger action now)) ts
      → (stayed : List Trigger) × (l' : Log W) × (trigger_all condition
            (execute_trigger action now)
            (length ts + 1)
            ts
            l
          ≡ left stayed l')
        × (l'.history ≡ l.history ++ recorded condition now ts)
  trigger_all-history ts l h k = (
    filter (stays condition (execute_trigger action now)) ts,
    run_due condition (execute_trigger action now) ts l,
    trigger_all-filter condition (execute_trigger action now) ts l h k,
    run_due-history ts l,
  )
