-- ===== src/Engine/Monad.antt =====
-- Actions of the engine: they change the context, and return, throw or end the process. What was
-- written before a throw stays written.
use cloe.Prelude.{ℕ, Bool, true, Option, none, some, List, [], ◌∷◌, if◌then◌else◌}
use cloe.Engine.Types.{StateId, Exn, Result, ok, throws, terminates, Kind}
use cloe.Engine.Context.{
  Context, World, Answer, Effect, push, keep_alive_on, set_realtime_factor, announce_eta, Command,
  Call, commanded, processed,
}

abbrev pub Engine : Type 0 → Type 0 → Type 0
Engine W A = Context W → Result A × Context W

module _ {W A : Type 0} where
  unfoldable pub pure : A → Engine W A
  pure a c = (ok a, c)

  unfoldable pub raise : Exn → Engine W A
  raise e c = (throws e, c)

  unfoldable pub terminate : Engine W A
  terminate c = (terminates, c)

  -- `assert(b)`, in front of the rest of a function.
  unfoldable pub asserting : Bool → Engine W A → Engine W A
  unfolding terminate
  asserting b m = if b then m else terminate

module _ {W A B : Type 0} where
  unfoldable pub continue : Result A → (A → Engine W B) → Engine W B
  continue (ok a) f c = f a c
  continue (throws e) f c = (throws e, c)
  continue terminates f c = (terminates, c)

  infixl 10 ◌>>=◌ ◌>>◌
  unfoldable pub ◌>>=◌ : Engine W A → (A → Engine W B) → Engine W B
  unfolding pure raise continue
  ◌>>=◌ m f c = let (r, c') = m c in continue r f c'

  abbrev pub ◌>>◌ : Engine W A → Engine W B → Engine W B
  m >> n = m >>= λ _. n

module _ {W A : Type 0} where
  -- The handler that fits an exception; `none` lets it pass.
  unfoldable pub recover : Exn → Option (Engine W A) → Engine W A
  recover e none c = (throws e, c)
  recover e (some m) c = m c

  unfoldable pub handle : (Exn → Option (Engine W A)) → Result A → Engine W A
  unfolding recover
  handle h (ok a) c = (ok a, c)
  handle h (throws e) c = recover e (h e) c
  handle h terminates c = (terminates, c)

  -- `try { m } catch …`.
  unfoldable pub try_catch : Engine W A → (Exn → Option (Engine W A)) → Engine W A
  unfolding handle
  try_catch m h c = let (r, c') = m c in handle h r c'

  -- `catch (std::exception&)` that only logs.
  unfoldable pub swallow : A → Exn → Option (Engine W A)
  unfolding pure
  swallow a Exn.unknown = none
  swallow a e = some (pure a)

module _ {W : Type 0} where
  unfoldable pub modify : (Context W → Context W) → Engine W Unit
  modify f c = (ok tt, f c)

  unfoldable pub gets : {A : Type 0} → (Context W → A) → Engine W A
  gets f c = (ok (f c), c)

  unfoldable pub push_onto : Option StateId → StateId → Engine W Unit
  push_onto none s c = (ok tt, record c { interrupt = some s })
  push_onto (some t) s c = (throws Exn.logic_error, c)

  -- Only one interrupt is stored.
  unfoldable pub push_interrupt : StateId → Engine W Unit
  unfolding push_onto
  push_interrupt s c = push_onto c.interrupt s c

  unfoldable pub apply_effect : Effect → Engine W Unit
  unfolding push_interrupt
  apply_effect (push s) c = push_interrupt s c
  apply_effect keep_alive_on c =
      (ok tt, record c { config = record c.config { keep_alive = true } })
  apply_effect (set_realtime_factor f) c =
      (ok tt, record c { sync = record c.sync { realtime_factor = f } })
  apply_effect (announce_eta t) c = (ok tt, record c { sync = record c.sync { eta = t } })

  -- A refused interrupt ends the call that asked for it.
  unfoldable pub apply_effects : List Effect → Engine W Unit
  unfolding pure ◌>>=◌ apply_effect
  apply_effects [] = pure tt
  apply_effects (e ∷ es) = apply_effect e >> apply_effects es

  unfoldable pub answer : {A : Type 0} → Call → Answer A W → Engine W A
  unfolding ◌>>=◌ apply_effects
  answer call a c =
      (apply_effects a.effects >> λ c'. (a.result, c'))
        (record c { world = a.after; trace = call ∷ c.trace })

module _ {W : Type 0} (w : World W) where
  unfoldable pub command : Command → Engine W Unit
  unfolding answer
  command m c = answer (commanded m) (w.command m c.sync c.world) c

  unfoldable pub process : Kind → ℕ → Engine W ℕ
  unfolding answer
  process k n c = answer (processed k n) (w.process k n c.sync c.world) c
