-- ===== src/Engine/Graph.antt =====
-- The graph of the states: which state may follow which, as the states in
-- engine/src/simulation_state_*.cpp return them. The diagram at the top of simulation_machine.hpp
-- is another one: it has edges from Abort to Stop, from Stop to Reset and from Reset to Start.
use cloe.Prelude.{◌≡◌, refl, subst, Bool, true, false, Option, none, some, if◌then◌else◌}
use cloe.Engine.Types.{StateId, Result, ok, throws, terminates}
use cloe.Engine.Context.{Context, World}
use cloe.Engine.Monad.{Engine, pure, continue, ◌>>=◌}
use cloe.Engine.States.Setup.{connect_impl, connect_rest, probe_impl, start_impl}
use cloe.Engine.States.Stepping.{
  step_begin_impl, step_simulators_impl, step_controllers_impl, step_end_impl,
}
use cloe.Engine.States.Ending.{
  pause_impl, resume_impl, success_impl, fail_impl, abort_impl, stop_impl, reset_impl,
  keep_alive_impl, disconnect_impl,
}
use cloe.Engine.Machine.{impl}

pub data Edge : StateId → StateId → Type 0 where
  connect_probe : Edge StateId.connect StateId.probe
  connect_start : Edge StateId.connect StateId.start
  connect_abort : Edge StateId.connect StateId.abort
  probe_disconnect : Edge StateId.probe StateId.disconnect
  start_pause : Edge StateId.start StateId.pause
  start_step_begin : Edge StateId.start StateId.step_begin
  step_begin_simulators : Edge StateId.step_begin StateId.step_simulators
  step_begin_stop : Edge StateId.step_begin StateId.stop
  step_simulators_controllers : Edge StateId.step_simulators StateId.step_controllers
  step_controllers_end : Edge StateId.step_controllers StateId.step_end
  step_end_begin : Edge StateId.step_end StateId.step_begin
  step_end_pause : Edge StateId.step_end StateId.pause
  pause_pause : Edge StateId.pause StateId.pause
  pause_resume : Edge StateId.pause StateId.resume
  resume_step_begin : Edge StateId.resume StateId.step_begin
  success_stop : Edge StateId.success StateId.stop
  fail_stop : Edge StateId.fail StateId.stop
  stop_keep_alive : Edge StateId.stop StateId.keep_alive
  stop_disconnect : Edge StateId.stop StateId.disconnect
  reset_connect : Edge StateId.reset StateId.connect
  reset_abort : Edge StateId.reset StateId.abort
  abort_disconnect : Edge StateId.abort StateId.disconnect
  keep_alive_keep_alive : Edge StateId.keep_alive StateId.keep_alive

-- Along an edge, or out of the machine, which only `disconnect` leads to.
abbrev pub Leads : StateId → Option StateId → Type 0
Leads s (some n) = Edge s n
Leads s none = s ≡ StateId.disconnect

-- Whatever `m` returns has the property `R`.
record Yields {W A : Type 0} (R : A → Type 0) (m : Engine W A) : Type 0 where
  at : (c : Context W) (a : A) → (m c).0 ≡ ok a → R a

ok-injective : {A : Type 0} {a b : A} → ok a ≡ ok b → a ≡ b
ok-injective e = cc

module _ {W A : Type 0} {R : A → Type 0} where
  Yields-pure : (a : A) → R a → Yields {W = W} R (pure a)
  unfolding pure
  Yields-pure a r = record { at = λ c b e. subst R (ok-injective e) r }

  Yields-if :
      (b : Bool) {m n : Engine W A} → Yields R m → Yields R n → Yields R (if b then m else n)
  Yields-if true km kn = km
  Yields-if false km kn = kn

module _ {W A B : Type 0} {R : B → Type 0} where
  Yields-continue :
      (r : Result A) (f : A → Engine W B) → ((a : A) → Yields R (f a)) → Yields R (continue r f)
  unfolding continue
  Yields-continue (ok a) f k = record { at = (k a).at }
  Yields-continue (throws x) f k = record { at = λ c b e. cc }
  Yields-continue terminates f k = record { at = λ c b e. cc }

  -- Only the last action counts.
  Yields-bind :
      (m : Engine W A) (f : A → Engine W B) → ((a : A) → Yields R (f a)) → Yields R (m >>= f)
  unfolding ◌>>=◌
  Yields-bind m f k = record { at = λ c b e. let (r, d) = m c in (Yields-continue r f k).at d b e }

module _ {W : Type 0} where
  Yields-one_of :
      {s x y : StateId} (b : Bool)
      → Edge s x
      → Edge s y
      → Yields {W = W} (Leads s) (pure (some (if b then x else y)))
  Yields-one_of true ex ey = Yields-pure _ ex
  Yields-one_of false ex ey = Yields-pure _ ey

  Yields-connect_rest : (w : World W) → Yields (Leads StateId.connect) (connect_rest w)
  unfolding connect_rest
  Yields-connect_rest w = Yields-bind _ _ λ _. Yields-bind _ _ λ _. Yields-bind _ _ λ _.
      Yields-bind _ _ λ _. Yields-bind _ _ λ _. Yields-bind _ _ λ _.
        Yields-if _ (Yields-pure _ connect_abort) (
          Yields-bind _ _ λ _. Yields-bind _ _ λ _. Yields-bind _ _ λ _.
            Yields-if _ (Yields-pure _ connect_abort) (
              Yields-bind _ _ λ _. Yields-bind _ _ λ _. Yields-bind _ _ λ _.
                Yields-if _ (Yields-pure _ connect_abort) (
                  Yields-bind _ _ λ _.
                    Yields-bind _ _
                      λ _. Yields-bind _ _ λ p. Yields-one_of p connect_probe connect_start)))

  Yields-impl : (w : World W) (s : StateId) → Yields (Leads s) (impl w s)
  unfolding impl connect_impl probe_impl start_impl step_begin_impl step_simulators_impl
      step_controllers_impl step_end_impl pause_impl resume_impl success_impl fail_impl abort_impl
      stop_impl reset_impl keep_alive_impl disconnect_impl
  Yields-impl w StateId.connect = Yields-bind _ _ λ _. Yields-connect_rest w
  Yields-impl w StateId.probe =
      Yields-bind _ _ λ _. Yields-bind _ _ λ _. Yields-pure _ probe_disconnect
  Yields-impl w StateId.start = Yields-bind _ _ λ _. Yields-bind _ _ λ _. Yields-bind _ _ λ _.
      Yields-bind _ _ λ _. Yields-bind _ _ λ _. Yields-bind _ _ λ _.
        Yields-bind _ _ λ _.
          Yields-bind _ _ λ _. Yields-bind _ _ λ p. Yields-one_of p start_pause start_step_begin
  Yields-impl w StateId.step_begin = Yields-bind _ _ λ _. Yields-bind _ _ λ _.
      Yields-bind _ _
        λ _. Yields-bind _ _ λ p. Yields-one_of p step_begin_simulators step_begin_stop
  Yields-impl w StateId.step_simulators =
      Yields-bind _ _ λ _. Yields-bind _ _ λ _. Yields-pure _ step_simulators_controllers
  Yields-impl w StateId.step_controllers =
      Yields-bind _ _
        λ _. Yields-bind _ _ λ _. Yields-bind _ _ λ _. Yields-pure _ step_controllers_end
  Yields-impl w StateId.step_end = Yields-bind _ _ λ _.
      Yields-bind _ _
        λ _. Yields-bind _ _ λ _. Yields-bind _ _ λ p. Yields-one_of p step_end_pause step_end_begin
  Yields-impl w StateId.pause = Yields-bind _ _ λ _. Yields-bind _ _ λ _.
      Yields-bind _ _
        λ _. Yields-bind _ _ λ _. Yields-bind _ _ λ p. Yields-one_of p pause_pause pause_resume
  Yields-impl w StateId.resume =
      Yields-bind _ _ λ _. Yields-bind _ _ λ _. Yields-bind _ _ λ _. Yields-pure _ resume_step_begin
  Yields-impl w StateId.success =
      Yields-bind _ _ λ _. Yields-bind _ _ λ _. Yields-pure _ success_stop
  Yields-impl w StateId.fail = Yields-bind _ _ λ _. Yields-bind _ _ λ _. Yields-pure _ fail_stop
  Yields-impl w StateId.stop = Yields-bind _ _ λ _.
      Yields-bind _ _ λ _.
        Yields-bind _ _ λ _. Yields-bind _ _ λ p. Yields-one_of p stop_keep_alive stop_disconnect
  Yields-impl w StateId.reset =
      Yields-bind _ _ λ _. Yields-bind _ _ λ p. Yields-one_of p reset_connect reset_abort
  Yields-impl w StateId.abort = Yields-bind _ _ λ p. Yields-if _ (Yields-pure _ abort_disconnect) (
      Yields-if _ (Yields-bind _ _ λ _. Yields-pure _ abort_disconnect)
        (Yields-bind _ _ λ _. Yields-pure _ abort_disconnect))
  Yields-impl w StateId.keep_alive = Yields-bind _ _ λ _. Yields-pure _ keep_alive_keep_alive
  Yields-impl w StateId.disconnect = Yields-bind _ _ λ _. Yields-bind _ _ λ _. Yields-pure _ refl

-- Whatever the plugins do, a state that returns leads to one of its successors in the graph, and
-- only `disconnect` leads out of the machine.
pub impl-Leads :
    {W : Type 0} (w : World W) (s : StateId) (c : Context W) (next : Option StateId)
    → (impl w s c).0 ≡ ok next
    → Leads s next
impl-Leads w s c next e = (Yields-impl w s).at c next e
