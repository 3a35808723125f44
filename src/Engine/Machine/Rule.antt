-- ===== src/Engine/Machine/Rule.antt =====
-- The invariant rule of the machine: what every state keeps, and the bookkeeping of the machine
-- leaves alone, holds throughout a run.
use cloe.Prelude.{
  ℕ, ◌≡◌, sym, subst, zero, suc, Bool, true, false, Option, none, some, if◌then◌else◌,
}
use cloe.Engine.Types.{StateId, Exn, Result}
use cloe.Engine.Context.{Context, World}
use cloe.Engine.Monad.{Engine, modify, try_catch, ◌>>=◌}
use cloe.Engine.Keeps.{
  Keeps, HandlerKeeps, passes, catches, IsStable, Keeps-pure, Keeps-bind, Keeps-continue,
  Keeps-modify, Keeps-handle, Keeps-try_catch, Keeps-push_interrupt,
}
use cloe.Engine.Machine.{
  count_call, count_transition, pop_interrupt, set_pause, on_exception, impl, run_impl, run_state,
  handle_interrupt, turn_body, turn, is_done, run_machine,
}

-- `P` says nothing of what the machine itself writes.
pub record IsBlind {W : Type 0} (P : Context W → Type 0) : Type 0 where
  pub transitions :
      (c : Context W) (f : StateId → StateId → ℕ) → P c → P (record c { transitions = f })
  pub prev_states : (c : Context W) (s : Option StateId) → P c → P (record c { prev_state = s })
  pub pauses : (c : Context W) (b : Bool) → P c → P (record c { pause_execution = b })

-- Inside of the state `s`, which counts its call first, `Q s` stands for `P`.
pub record Inside {W : Type 0} (w : World W) (P : Context W → Type 0)
    (Q : StateId → Context W → Type 0) : Type 0 where
  pub enter : (s : StateId) (c : Context W) → P c → Q s (count_call s c)
  pub within : (s : StateId) → Keeps (Q s) (impl w s)
  pub leave : (s : StateId) (c : Context W) → Q s c → P c

module _ {W : Type 0} {P : Context W → Type 0} {Q : StateId → Context W → Type 0} (w : World W)
    (stable : IsStable P) (blind : IsBlind P) (inside : Inside w P Q) where
  count_transition-Keeps :
      (s : StateId) (n : Option StateId) (c : Context W) → P c → P (count_transition s n c)
  unfolding count_transition
  count_transition-Keeps s none c p = p
  count_transition-Keeps s (some n) c p = blind.transitions c _ p

  -- A state that leaves `Q s` behind itself leaves `P` behind its run.
  pub run_state-leaves :
      (s : StateId) (c : Context W) → Q s (impl w s (count_call s c)).1 → P (run_state w s c).1
  unfolding run_state run_impl ◌>>=◌ modify
  run_state-leaves s c q =
      let (r, c') = impl w s (count_call s c) in
      blind.prev_states _ (some s) (
        (Keeps-continue r _
            λ n. Keeps-bind _ _ (Keeps-modify _ (count_transition-Keeps s n)) λ _. Keeps-pure n).at
          c' (inside.leave s c' q))

  Keeps-run_state : (s : StateId) → Keeps P (run_state w s)
  Keeps-run_state s = record {
    at = λ c p. run_state-leaves s c ((inside.within s).at _ (inside.enter s c p));
  }

  Keeps-handle_interrupt : (id : Option StateId) (i : StateId) → Keeps P (handle_interrupt w id i)
  unfolding handle_interrupt set_pause
  Keeps-handle_interrupt id StateId.pause =
      Keeps-bind _ _ (Keeps-modify _ (λ c p. blind.pauses c true p)) λ _. Keeps-pure id
  Keeps-handle_interrupt id StateId.resume =
      Keeps-bind _ _ (Keeps-modify _ (λ c p. blind.pauses c false p)) λ _. Keeps-pure id
  Keeps-handle_interrupt id _ = Keeps-run_state _

  Keeps-turn_body : (i id : Option StateId) → Keeps P (turn_body w i id)
  unfolding turn_body pop_interrupt
  Keeps-turn_body (some i) id =
      Keeps-bind _ _ (Keeps-modify _ (λ c p. stable.interrupts c none p))
        λ _. Keeps-handle_interrupt id i
  Keeps-turn_body none (some s) = Keeps-run_state s
  Keeps-turn_body none none = Keeps-pure none

  HandlerKeeps-on_exception : (id : Option StateId) (e : Exn) → HandlerKeeps P (on_exception id e)
  unfolding on_exception
  HandlerKeeps-on_exception id Exn.async_abort =
      catches (Keeps-bind _ _ (Keeps-push_interrupt stable _) λ _. Keeps-pure id)
  HandlerKeeps-on_exception id Exn.model_reset =
      catches (Keeps-bind _ _ (Keeps-push_interrupt stable _) λ _. Keeps-pure id)
  HandlerKeeps-on_exception id Exn.model_stop =
      catches (Keeps-bind _ _ (Keeps-push_interrupt stable _) λ _. Keeps-pure id)
  HandlerKeeps-on_exception id Exn.model_abort =
      catches (Keeps-bind _ _ (Keeps-push_interrupt stable _) λ _. Keeps-pure id)
  HandlerKeeps-on_exception id Exn.model_error =
      catches (Keeps-bind _ _ (Keeps-push_interrupt stable _) λ _. Keeps-pure id)
  HandlerKeeps-on_exception id _ = passes

  pub Keeps-turn : (id : Option StateId) → Keeps P (turn w id)
  unfolding turn
  Keeps-turn id = record {
    at = λ c p.
        (Keeps-try_catch _ _ (Keeps-turn_body c.interrupt id) (HandlerKeeps-on_exception id)).at c
          p;
  }

  -- The same for a turn that runs a state.
  pub turn-leaves :
      (s : StateId) (c : Context W)
      → c.interrupt ≡ none
      → Q s (impl w s (count_call s c)).1
      → P (turn w (some s) c).1
  unfolding turn turn_body try_catch
  turn-leaves s c e q =
      subst (λ i. P (try_catch (turn_body w i (some s)) (on_exception (some s)) c).1) (sym e)
        (let (r, c') = run_state w s c in
          (Keeps-handle _ r (HandlerKeeps-on_exception (some s))).at c' (run_state-leaves s c q))

  Keeps-stop_or :
      {A : Type 0} (b : Bool) (r : Result A) (m : Engine W A) (c : Context W)
      → Keeps P m
      → P c
      → P (let x : Result A × Context W = (if b then (r, c) else m c) in x).1
  Keeps-stop_or true r m c k p = p
  Keeps-stop_or false r m c k p = k.at c p

  pub Keeps-run_machine : (fuel : ℕ) (id : Option StateId) → Keeps P (run_machine w fuel id)
  unfolding run_machine
  Keeps-run_machine zero id = record { at = λ c p. p }
  Keeps-run_machine (suc fuel) id = record {
    at = λ c p.
        Keeps-stop_or (is_done w id c) _ _ c
          (Keeps-bind _ _ (Keeps-turn id) (Keeps-run_machine fuel)) p;
  }

  -- A run that begins with a state is settled by that state's first turn.
  pub run_machine-leaves :
      (fuel : ℕ) (s : StateId) (c : Context W)
      → c.interrupt ≡ none
      → Q s (impl w s (count_call s c)).1
      → P (run_machine w (suc fuel) (some s) c).1
  unfolding run_machine is_done ◌>>=◌
  run_machine-leaves fuel s c e q =
      let (r, c') = turn w (some s) c in
      (Keeps-continue r _ (Keeps-run_machine fuel)).at c' (turn-leaves s c e q)
