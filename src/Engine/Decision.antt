-- ===== src/Engine/Decision.antt =====
-- By which state the outcome of a run is decided: the assignments to ctx.outcome in
-- engine/src/simulation_state_*.cpp.
use cloe.Prelude.{ℕ, ◌<◌, ◌≡◌, ap, sym, subst, ◌∙◌, some, ◌⊎◌, inl, inr, arith}
use cloe.Engine.Types.{StateId, SimulationOutcome, Kind, controller, vehicle, simulator}
use cloe.Engine.Context.{Config, Context, World, initial}
use cloe.Engine.Keeps.{Keeps, IsStable, Keeps-gets, Keeps-bind, Keeps-if, Keeps-pure, Keeps-modify}
use cloe.Engine.States.Setup.{added, decide}
use cloe.Engine.States.Ending.{mark_stopped}
use cloe.Engine.States.Writes.{Decides, Writes}
use cloe.Engine.States.Writes.All.{impl-Keeps}
use cloe.Engine.Machine.{count_call, run_machine}
use cloe.Engine.Machine.Rule.{IsBlind, Inside, Keeps-run_machine}
use cloe.Engine.Outcome.{run_machine-ne-stopped}

-- A state that decides on the outcome has been entered.
abbrev pub Justified : (StateId → ℕ) → SimulationOutcome → Type 0
Justified calls o = (s : StateId) × Decides s o × (0 < calls s)

some-injective : {o d : SimulationOutcome} → some d ≡ some o → d ≡ o
some-injective e = cc

module _ {W : Type 0} where
  abbrev AllJustified : Context W → Type 0
  AllJustified c =
      (o : SimulationOutcome)
      → c.outcome ≡ some o
      → (o ≡ SimulationOutcome.stopped) ⊎ Justified c.calls o

  -- The same inside of a state, which has been entered.
  abbrev Inner : StateId → Context W → Type 0
  Inner s c = AllJustified c × (0 < c.calls s)

  Inner-IsStable : (s : StateId) → IsStable (Inner s)
  Inner-IsStable s = record {
    interrupts = λ c i p. p;
    keeps_alive = λ c p. p;
    factors = λ c f p. p;
    etas = λ c t p. p;
    calls_out = λ c a t p. p;
  }

  AllJustified-IsStable : IsStable AllJustified
  AllJustified-IsStable = record {
    interrupts = λ c i p. p;
    keeps_alive = λ c p. p;
    factors = λ c f p. p;
    etas = λ c t p. p;
    calls_out = λ c a t p. p;
  }

  AllJustified-IsBlind : IsBlind AllJustified
  AllJustified-IsBlind = record {
    transitions = λ c f p. p;
    prev_states = λ c s p. p;
    pauses = λ c b p. p;
  }

  added-Inner : (s : StateId) (c : Context W) (k : Kind) (n : ℕ) → Inner s c → Inner s (added k n c)
  added-Inner s c controller n p = p
  added-Inner s c vehicle n p = p
  added-Inner s c simulator n p = p

  mark_stopped-Inner : (s : StateId) → Keeps (Inner s) mark_stopped
  unfolding mark_stopped decide
  mark_stopped-Inner s = Keeps-bind _ _ (Keeps-gets _) λ d.
      Keeps-if d _ _ (Keeps-pure tt)
        (Keeps-modify _ (λ c p. ((λ o e. inl (sym (some-injective e))), p.1)))

  Inner-Writes : (s : StateId) → Writes s (Inner s)
  Inner-Writes s = record {
    outcomes = λ c d k p. ((λ o e. inr (s, subst (Decides s) (some-injective e) k, p.1)), p.1);
    stopping = mark_stopped-Inner s;
    models_in = added-Inner s;
    controllers_in = λ c ns p. p;
    probes = λ c p. p;
    listens = λ c b p. p;
    cycles = λ c t p. p;
    steps = λ c p. p;
    results = λ c r p. p;
  }

  count_call-grows : (s t : StateId) (c : Context W) → 0 < c.calls t → 0 < (count_call s c).calls t
  unfolding count_call
  count_call-grows s t c h = ground arith

  count_call-pos : (s : StateId) (c : Context W) → 0 < (count_call s c).calls s
  unfolding count_call
  count_call-pos s c = ground arith

  count_call-enter : (s : StateId) (c : Context W) → AllJustified c → Inner s (count_call s c)
  unfolding count_call
  count_call-enter s c p = (
    (λ o e. elim (p o e) [ inl h ↦ inl h | inr (t, d, g) ↦ inr (t, d, count_call-grows s t c g) ]),
    count_call-pos s c,
  )

  Justified-Inside : (w : World W) → Inside w AllJustified Inner
  Justified-Inside w = record {
    enter = count_call-enter;
    within = λ s. impl-Keeps w (Inner-IsStable s) s (Inner-Writes s);
    leave = λ s c p. p.0;
  }

-- If a run of the state machine leaves an outcome in the context, then a state that decides on this
-- outcome has been entered: success is there only behind `success`, failure only behind `fail`, and
-- so on. What is reported when an exception leaves the machine is no part of it.
pub run_machine-Justified :
    {W : Type 0} (w : World W) (config : Config) (width : ℕ) (a : W) (fuel : ℕ)
    (o : SimulationOutcome)
    → (run_machine w fuel (some StateId.connect) (initial config width a)).1.outcome ≡ some o
    → Justified (run_machine w fuel (some StateId.connect) (initial config width a)).1.calls o
unfolding initial
run_machine-Justified w config width a fuel o e =
    elim ((Keeps-run_machine w AllJustified-IsStable AllJustified-IsBlind (Justified-Inside w) fuel
        (some StateId.connect)).at
      (initial config width a) (λ d f. cc) o e) [
        | inl h ↦ absurd (run_machine-ne-stopped w config width a fuel (e ∙ ap some h))
        | inr j ↦ j
      ]
