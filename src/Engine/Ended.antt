-- ===== src/Engine/Ended.antt =====
-- The end of a run and its result: `Disconnect` of engine/src/simulation_state_disconnect.cpp and
-- the loop of engine/src/simulation_machine.hpp.
use cloe.Prelude.{
  ℕ, zero, suc, ◌≡◌, refl, ap, sym, subst, Bool, true, false, Option, none, some, is_some,
  if◌then◌else◌,
}
use cloe.Engine.Types.{
  StateId, Exn, Result, ok, throws, terminates, Kind, controller, vehicle, simulator,
}
use cloe.Engine.Context.{Context, World}
use cloe.Engine.Monad.{Engine, pure, modify, continue, ◌>>=◌, try_catch, handle, recover}
use cloe.Engine.Keeps.{Keeps, IsStable, Keeps-gets, Keeps-bind, Keeps-if, Keeps-pure, Keeps-modify}
use cloe.Engine.States.Setup.{added, decide}
use cloe.Engine.States.Ending.{mark_stopped, disconnect_impl}
use cloe.Engine.States.Writes.{Writes}
use cloe.Engine.States.Writes.All.{impl-Keeps}
use cloe.Engine.Machine.{
  count_call, count_transition, on_exception, impl, run_impl, run_state, handle_interrupt,
  turn_body, turn, Progress, ended, is_done, run_machine,
}
use cloe.Engine.Machine.Rule.{IsBlind, Inside, Keeps-turn}
use cloe.Engine.Graph.{impl-Leads}

module _ {W : Type 0} where
  abbrev HasResult : Context W → Type 0
  HasResult c = is_some c.result ≡ true

  HasResult-IsStable : IsStable HasResult
  HasResult-IsStable = record {
    interrupts = λ c i p. p;
    keeps_alive = λ c p. p;
    factors = λ c f p. p;
    etas = λ c t p. p;
    calls_out = λ c a t p. p;
  }

  HasResult-IsBlind : IsBlind HasResult
  HasResult-IsBlind = record {
    transitions = λ c f p. p;
    prev_states = λ c s p. p;
    pauses = λ c b p. p;
  }

  added-HasResult : (c : Context W) (k : Kind) (n : ℕ) → HasResult c → HasResult (added k n c)
  added-HasResult c controller n p = p
  added-HasResult c vehicle n p = p
  added-HasResult c simulator n p = p

  mark_stopped-HasResult : Keeps HasResult mark_stopped
  unfolding mark_stopped decide
  mark_stopped-HasResult =
      Keeps-bind _ _ (Keeps-gets _) λ d. Keeps-if d _ _ (Keeps-pure tt) (Keeps-modify _ (λ c p. p))

  HasResult-Writes : (s : StateId) → Writes s HasResult
  HasResult-Writes s = record {
    outcomes = λ c o d p. p;
    stopping = mark_stopped-HasResult;
    models_in = added-HasResult;
    controllers_in = λ c ns p. p;
    probes = λ c p. p;
    listens = λ c b p. p;
    cycles = λ c t p. p;
    steps = λ c p. p;
    results = λ c r p. refl;
  }

  HasResult-Inside : (w : World W) → Inside w HasResult (λ s. HasResult)
  unfolding count_call
  HasResult-Inside w = record {
    enter = λ s c p. p;
    within = λ s. impl-Keeps w HasResult-IsStable s (HasResult-Writes s);
    leave = λ s c p. p;
  }

  -- If `m` returns no state, there is a result.
  record Closes (m : Engine W (Option StateId)) : Type 0 where
    at : (c : Context W) → (m c).0 ≡ ok none → HasResult (m c).1

  Closes-continue :
      {A : Type 0} (r : Result A) (f : A → Engine W (Option StateId))
      → ((a : A) → Closes (f a))
      → Closes (continue r f)
  unfolding continue
  Closes-continue (ok a) f h = record { at = (h a).at }
  Closes-continue (throws e) f h = record { at = λ c q. cc }
  Closes-continue terminates f h = record { at = λ c q. cc }

  Closes-bind :
      {A : Type 0} (m : Engine W A) (f : A → Engine W (Option StateId))
      → ((a : A) → Closes (f a))
      → Closes (m >>= f)
  unfolding ◌>>=◌
  Closes-bind m f h = record { at = λ c q. let (r, d) = m c in (Closes-continue r f h).at d q }

  Closes-modify :
      (f : Context W → Context W)
      → ((c : Context W) → HasResult (f c))
      → Closes (modify f >>= λ _. pure none)
  unfolding ◌>>=◌ modify continue pure
  Closes-modify f h = record { at = λ c q. h c }

  Closes-some : (s : StateId) → Closes (pure (some s))
  unfolding pure
  Closes-some s = record { at = λ c q. cc }

  Closes-none_thrown : (e : Exn) → Closes (recover e none)
  unfolding recover
  Closes-none_thrown e = record { at = λ c q. cc }

  Closes-disconnect_impl : (w : World W) → Closes (disconnect_impl w)
  unfolding disconnect_impl
  Closes-disconnect_impl w = Closes-bind _ _ λ _. Closes-modify _ λ c. refl

  Closes-disconnect : (w : World W) → Closes (impl w StateId.disconnect)
  unfolding impl
  Closes-disconnect w = Closes-disconnect_impl w

  -- A state that leads out of the machine is `disconnect`.
  Closes-impl : (w : World W) (s : StateId) → Closes (impl w s)
  Closes-impl w s = record {
    at = λ c q.
        subst (λ t. (impl w t c).0 ≡ ok none → HasResult (impl w t c).1)
          (sym (impl-Leads w s c none q)) ((Closes-disconnect w).at c) q;
  }

  counted :
      (s : StateId) (r : Result (Option StateId)) (d : Context W)
      → (r ≡ ok none → HasResult d)
      → (continue r (λ n. modify (count_transition s n) >>= λ _. pure n) d).0 ≡ ok none
      → HasResult (continue r (λ n. modify (count_transition s n) >>= λ _. pure n) d).1
  unfolding continue ◌>>=◌ modify pure count_transition
  counted s (ok none) d h q = h refl
  counted s (ok (some n)) d h q = cc
  counted s (throws e) d h q = cc
  counted s terminates d h q = cc

  Closes-run_state : (w : World W) (s : StateId) → Closes (run_state w s)
  unfolding run_state run_impl ◌>>=◌ modify continue
  Closes-run_state w s = record {
    at = λ c q.
        let (r, d) = impl w s (count_call s c) in
        counted s r d ((Closes-impl w s).at (count_call s c)) q;
  }

  Closes-handle_interrupt : (w : World W) (s i : StateId) → Closes (handle_interrupt w (some s) i)
  unfolding handle_interrupt
  Closes-handle_interrupt w s StateId.pause = Closes-bind _ _ λ _. Closes-some s
  Closes-handle_interrupt w s StateId.resume = Closes-bind _ _ λ _. Closes-some s
  Closes-handle_interrupt w s _ = Closes-run_state w _

  Closes-turn_body :
      (w : World W) (i : Option StateId) (s : StateId) → Closes (turn_body w i (some s))
  unfolding turn_body
  Closes-turn_body w none s = Closes-run_state w s
  Closes-turn_body w (some i) s = Closes-bind _ _ λ _. Closes-handle_interrupt w s i

  Closes-recover : (s : StateId) (e : Exn) → Closes (recover e (on_exception (some s) e))
  unfolding recover on_exception
  Closes-recover s Exn.async_abort = record { at = (Closes-bind _ _ λ _. Closes-some s).at }
  Closes-recover s Exn.model_reset = record { at = (Closes-bind _ _ λ _. Closes-some s).at }
  Closes-recover s Exn.model_stop = record { at = (Closes-bind _ _ λ _. Closes-some s).at }
  Closes-recover s Exn.model_abort = record { at = (Closes-bind _ _ λ _. Closes-some s).at }
  Closes-recover s Exn.model_error = record { at = (Closes-bind _ _ λ _. Closes-some s).at }
  Closes-recover s e = record { at = (Closes-none_thrown e).at }

  handled :
      (s : StateId) (r : Result (Option StateId)) (d : Context W)
      → (r ≡ ok none → HasResult d)
      → (handle (on_exception (some s)) r d).0 ≡ ok none
      → HasResult (handle (on_exception (some s)) r d).1
  unfolding handle
  handled s (ok a) d h q = h q
  handled s (throws e) d h q = (Closes-recover s e).at d q
  handled s terminates d h q = cc

  turn-closes :
      (w : World W) (id : Option StateId) (c : Context W)
      → (id ≡ none → HasResult c)
      → (turn w id c).0 ≡ ok none
      → HasResult (turn w id c).1
  unfolding turn try_catch
  turn-closes w none c h q =
      (Keeps-turn w HasResult-IsStable HasResult-IsBlind (HasResult-Inside w) none).at c (h refl)
  turn-closes w (some s) c h q =
      let (r, d) = turn_body w c.interrupt (some s) c in
      handled s r d ((Closes-turn_body w c.interrupt s).at c) q

  done-none :
      (w : World W) (id : Option StateId) (c : Context W) → is_done w id c ≡ true → id ≡ none
  unfolding is_done
  done-none w none c e = refl
  done-none w (some s) c e = cc

  stop_or :
      (b : Bool) (c : Context W) (m : Result Progress × Context W)
      → (b ≡ true → HasResult c)
      → (m.0 ≡ ok ended → HasResult m.1)
      → (let x : Result Progress × Context W = (if b then (ok ended, c) else m) in x.0) ≡ ok ended
      → HasResult (let x : Result Progress × Context W = (if b then (ok ended, c) else m) in x.1)
  stop_or true c m h k q = h refl
  stop_or false c m h k q = k q

  goes_on :
      (w : World W) (fuel : ℕ) (r : Result (Option StateId)) (d : Context W)
      → ((id : Option StateId)
          → (id ≡ none → HasResult d)
          → (run_machine w fuel id d).0 ≡ ok ended
          → HasResult (run_machine w fuel id d).1)
      → (r ≡ ok none → HasResult d)
      → (continue r (run_machine w fuel) d).0 ≡ ok ended
      → HasResult (continue r (run_machine w fuel) d).1
  unfolding continue
  goes_on w fuel (ok id) d ih h q = ih id (λ e. h (ap ok e)) q
  goes_on w fuel (throws x) d ih h q = cc
  goes_on w fuel terminates d ih h q = cc

  run-closes :
      (w : World W) (fuel : ℕ) (id : Option StateId) (c : Context W)
      → (id ≡ none → HasResult c)
      → (run_machine w fuel id c).0 ≡ ok ended
      → HasResult (run_machine w fuel id c).1
  unfolding run_machine ◌>>=◌
  run-closes w zero id c h q = cc
  run-closes w (suc fuel) id c h q =
      let (r, d) = turn w id c in
      stop_or (is_done w id c) c (continue r (run_machine w fuel) d) (λ e. h (done-none w id c e))
        (goes_on w fuel r d (λ i. run-closes w fuel i d) (turn-closes w id c h)) q

-- A run that starts with a state and comes to its end has recorded its result, whatever interrupts
-- and exceptions there were on its way: `disconnect` has run to its end.
pub run_machine-result :
    {W : Type 0} (w : World W) (fuel : ℕ) (s : StateId) (c : Context W)
    → (run_machine w fuel (some s) c).0 ≡ ok ended
    → is_some (run_machine w fuel (some s) c).1.result ≡ true
run_machine-result w fuel s c e = run-closes w fuel (some s) c (λ q. cc) e
