-- ===== src/Engine/Keeps.antt =====
-- Invariants of the engine's actions: one rule for each way to build an action.
use cloe.Prelude.{ℕ, Bool, true, false, Option, none, some, List, [], ◌∷◌, if◌then◌else◌}
use cloe.Prelude.Int.{ℤ}
use cloe.Engine.Types.{StateId, Exn, Result, ok, throws, terminates, Kind}
use cloe.Engine.Context.{
  Context, World, Answer, Effect, push, keep_alive_on, set_realtime_factor, announce_eta, Command,
  Call, commanded, processed,
}
use cloe.Engine.Monad.{
  Engine, pure, raise, asserting, continue, ◌>>=◌, recover, handle, try_catch, swallow, modify,
  gets, push_onto, push_interrupt, apply_effect, apply_effects, answer, command, process,
}
use cloe.Engine.Foreach.{
  foreach, foreach_simulator, foreach_vehicle, foreach_controller, foreach_model, and_then,
}

-- `m` keeps `P`, whether it returns, throws or ends the process.
pub record Keeps {W A : Type 0} (P : Context W → Type 0) (m : Engine W A) : Type 0 where
  pub at : (c : Context W) → P c → P (m c).1

-- A handler keeps `P` if it lets the exception pass, or if its action does.
pub data HandlerKeeps {W A : Type 0} (P : Context W → Type 0) : Option (Engine W A) → Type 0 where
  passes : HandlerKeeps P none
  catches : {m : Engine W A} → Keeps P m → HandlerKeeps P (some m)

-- `P` says nothing of what a call out of the engine may change by itself.
pub record IsStable {W : Type 0} (P : Context W → Type 0) : Type 0 where
  pub interrupts : (c : Context W) (i : Option StateId) → P c → P (record c { interrupt = i })
  pub keeps_alive :
      (c : Context W) → P c → P (record c { config = record c.config { keep_alive = true } })
  pub factors :
      (c : Context W) (f : ℤ) → P c → P (record c { sync = record c.sync { realtime_factor = f } })
  pub etas : (c : Context W) (t : ℕ) → P c → P (record c { sync = record c.sync { eta = t } })
  pub calls_out :
      (c : Context W) (a : W) (t : List Call) → P c → P (record c { world = a; trace = t })

module _ {W A : Type 0} {P : Context W → Type 0} where
  pub Keeps-pure : (a : A) → Keeps P (pure a)
  unfolding pure
  Keeps-pure a = record { at = λ c h. h }

  pub Keeps-raise : (e : Exn) → Keeps P (raise {A = A} e)
  unfolding raise
  Keeps-raise e = record { at = λ c h. h }

  pub Keeps-gets : (f : Context W → A) → Keeps P (gets f)
  unfolding gets
  Keeps-gets f = record { at = λ c h. h }

  pub Keeps-if :
      (b : Bool) (m n : Engine W A) → Keeps P m → Keeps P n → Keeps P (if b then m else n)
  Keeps-if true m n km kn = km
  Keeps-if false m n km kn = kn

  pub Keeps-asserting : (b : Bool) (m : Engine W A) → Keeps P m → Keeps P (asserting b m)
  unfolding asserting
  Keeps-asserting true m km = km
  Keeps-asserting false m km = record { at = λ c h. h }

  Keeps-recover : (e : Exn) (o : Option (Engine W A)) → HandlerKeeps P o → Keeps P (recover e o)
  unfolding recover
  Keeps-recover e none passes = record { at = λ c p. p }
  Keeps-recover e (some m) (catches k) = record { at = k.at }

  pub Keeps-handle :
      (h : Exn → Option (Engine W A)) (r : Result A)
      → ((e : Exn) → HandlerKeeps P (h e))
      → Keeps P (handle h r)
  unfolding handle
  Keeps-handle h (ok a) k = record { at = λ c p. p }
  Keeps-handle h terminates k = record { at = λ c p. p }
  Keeps-handle h (throws e) k = record { at = λ c p. (Keeps-recover e (h e) (k e)).at c p }

  pub Keeps-try_catch :
      (m : Engine W A) (h : Exn → Option (Engine W A))
      → Keeps P m
      → ((e : Exn) → HandlerKeeps P (h e))
      → Keeps P (try_catch m h)
  unfolding try_catch
  Keeps-try_catch m h km kh = record {
    at = λ c p. let (r, c') = m c in (Keeps-handle h r kh).at c' (km.at c p);
  }

  pub HandlerKeeps-swallow : (a : A) (e : Exn) → HandlerKeeps P (swallow a e)
  unfolding swallow
  HandlerKeeps-swallow a Exn.unknown = passes
  HandlerKeeps-swallow a _ = catches (Keeps-pure a)

module _ {W A B : Type 0} {P : Context W → Type 0} where
  pub Keeps-continue :
      (r : Result A) (f : A → Engine W B) → ((a : A) → Keeps P (f a)) → Keeps P (continue r f)
  unfolding continue
  Keeps-continue (ok a) f k = record { at = (k a).at }
  Keeps-continue (throws e) f k = record { at = λ c p. p }
  Keeps-continue terminates f k = record { at = λ c p. p }

  pub Keeps-bind :
      (m : Engine W A) (f : A → Engine W B)
      → Keeps P m
      → ((a : A) → Keeps P (f a))
      → Keeps P (m >>= f)
  unfolding ◌>>=◌
  Keeps-bind m f km kf = record {
    at = λ c p. let (r, c') = m c in (Keeps-continue r f kf).at c' (km.at c p);
  }

module _ {W : Type 0} {P : Context W → Type 0} where
  pub Keeps-modify :
      (f : Context W → Context W) → ((c : Context W) → P c → P (f c)) → Keeps P (modify f)
  unfolding modify
  Keeps-modify f k = record { at = k }

module _ {W : Type 0} {P : Context W → Type 0} (stable : IsStable P) where
  Keeps-push_onto : (i : Option StateId) (s : StateId) → Keeps P (push_onto i s)
  unfolding push_onto
  Keeps-push_onto none s = record { at = λ c p. stable.interrupts c (some s) p }
  Keeps-push_onto (some t) s = record { at = λ c p. p }

  pub Keeps-push_interrupt : (s : StateId) → Keeps P (push_interrupt s)
  unfolding push_interrupt
  Keeps-push_interrupt s = record { at = λ c p. (Keeps-push_onto c.interrupt s).at c p }

  Keeps-apply_effect : (e : Effect) → Keeps P (apply_effect e)
  unfolding apply_effect
  Keeps-apply_effect (push s) = record { at = λ c p. (Keeps-push_interrupt s).at c p }
  Keeps-apply_effect keep_alive_on = record { at = λ c p. stable.keeps_alive c p }
  Keeps-apply_effect (set_realtime_factor f) = record { at = λ c p. stable.factors c f p }
  Keeps-apply_effect (announce_eta t) = record { at = λ c p. stable.etas c t p }

  Keeps-apply_effects : (es : List Effect) → Keeps P (apply_effects es)
  unfolding apply_effects
  Keeps-apply_effects [] = Keeps-pure tt
  Keeps-apply_effects (e ∷ es) = Keeps-bind _ _ (Keeps-apply_effect e) (λ _. Keeps-apply_effects es)

  Keeps-answer : {A : Type 0} (k : Call) (a : Answer A W) → Keeps P (answer k a)
  unfolding answer
  Keeps-answer k a = record {
    at = λ c p.
        (Keeps-bind _ _ (Keeps-apply_effects a.effects) (λ _. record { at = λ d q. q })).at _
          (stable.calls_out c a.after _ p);
  }

  pub Keeps-command : (w : World W) (m : Command) → Keeps P (command w m)
  unfolding command
  Keeps-command w m = record {
    at = λ c p. (Keeps-answer (commanded m) (w.command m c.sync c.world)).at c p;
  }

  pub Keeps-process : (w : World W) (k : Kind) (n : ℕ) → Keeps P (process w k n)
  unfolding process
  Keeps-process w k n = record {
    at = λ c p. (Keeps-answer (processed k n) (w.process k n c.sync c.world)).at c p;
  }

module _ {W : Type 0} {P : Context W → Type 0} where
  pub Keeps-foreach :
      (xs : List ℕ) (f : ℕ → Engine W Bool) → ((n : ℕ) → Keeps P (f n)) → Keeps P (foreach xs f)
  unfolding foreach
  Keeps-foreach [] f k = Keeps-pure true
  Keeps-foreach (x ∷ xs) f k =
      Keeps-bind _ _ (k x) λ b. Keeps-if b _ _ (Keeps-foreach xs f k) (Keeps-pure false)

  pub Keeps-foreach_simulator :
      (f : ℕ → Engine W Bool) → ((n : ℕ) → Keeps P (f n)) → Keeps P (foreach_simulator f)
  unfolding foreach_simulator
  Keeps-foreach_simulator f k = Keeps-bind _ _ (Keeps-gets _) λ xs. Keeps-foreach xs f k

  pub Keeps-foreach_vehicle :
      (f : ℕ → Engine W Bool) → ((n : ℕ) → Keeps P (f n)) → Keeps P (foreach_vehicle f)
  unfolding foreach_vehicle
  Keeps-foreach_vehicle f k = Keeps-bind _ _ (Keeps-gets _) λ xs. Keeps-foreach xs f k

  pub Keeps-foreach_controller :
      (f : ℕ → Engine W Bool) → ((n : ℕ) → Keeps P (f n)) → Keeps P (foreach_controller f)
  unfolding foreach_controller
  Keeps-foreach_controller f k = Keeps-bind _ _ (Keeps-gets _) λ xs. Keeps-foreach xs f k

  Keeps-and_then : (b : Bool) (m : Engine W Bool) → Keeps P m → Keeps P (and_then b m)
  unfolding and_then
  Keeps-and_then b m k = Keeps-if b _ _ k (Keeps-pure false)

  pub Keeps-foreach_model :
      (f : Kind → ℕ → Engine W Bool)
      → ((k : Kind) (n : ℕ) → Keeps P (f k n))
      → Keeps P (foreach_model f)
  unfolding foreach_model
  Keeps-foreach_model f k = Keeps-bind _ _ (Keeps-foreach_controller _ (k _)) λ b.
      Keeps-bind _ _ (Keeps-and_then b _ (Keeps-foreach_vehicle _ (k _)))
        λ b'. Keeps-and_then b' _ (Keeps-foreach_simulator _ (k _))

pub ruleset keeps_rules = (
  Keeps-pure, Keeps-raise, Keeps-gets, Keeps-if, Keeps-asserting, Keeps-try_catch,
  HandlerKeeps-swallow, passes, catches, Keeps-bind, Keeps-modify, Keeps-push_interrupt,
  Keeps-command, Keeps-process, Keeps-foreach_simulator, Keeps-foreach_vehicle, Keeps-foreach_model,
)
