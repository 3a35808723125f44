-- ===== src/Engine/CatchUp.antt =====
-- The loop that waits for a controller: engine/src/simulation_state_step_controllers.cpp.
use cloe.Prelude.{
  ℕ, zero, suc, ◌+◌, ◌≤◌, ◌≡◌, ◌⊎◌, inl, inr, refl, Bool, true, false, Option, none, some, List, [],
  ◌∷◌, length, ltb, if◌then◌else◌, arith,
}
use cloe.Engine.Types.{StateId, Exn, Result, ok, throws, terminates, Kind}
use cloe.Engine.Context.{
  Context, World, Effect, push, keep_alive_on, set_realtime_factor, announce_eta, processed,
}
use cloe.Engine.Monad.{
  Engine, pure, raise, continue, ◌>>=◌, gets, push_onto, push_interrupt, apply_effect,
  apply_effects, answer, process,
}
use cloe.Engine.States.Stepping.{catch_up}

-- `m` makes at most `k` calls out of the engine.
record Calls {W A : Type 0} (k : ℕ) (m : Engine W A) : Type 0 where
  at : (c : Context W) → length (m c).1.trace ≤ length c.trace + k

module _ {W A B : Type 0} where
  Calls-continue :
      (r : Result A) (f : A → Engine W B) (k : ℕ)
      → ((a : A) → Calls k (f a))
      → Calls k (continue r f)
  unfolding continue
  Calls-continue (ok a) f k h = record { at = (h a).at }
  Calls-continue (throws e) f k h = record { at = λ c. omega arith }
  Calls-continue terminates f k h = record { at = λ c. omega arith }

  Calls-bind :
      (j k : ℕ) (m : Engine W A) (f : A → Engine W B)
      → Calls j m
      → ((a : A) → Calls k (f a))
      → Calls (j + k) (m >>= f)
  unfolding ◌>>=◌
  Calls-bind j k m f hm hf = record {
    at = λ c. let (r, d) = m c in omega (arith, hm.at c, (Calls-continue r f k hf).at d);
  }

module _ {W : Type 0} where
  Calls-push_onto : (p : Option StateId) (s : StateId) → Calls {W = W} 0 (push_onto p s)
  unfolding push_onto
  Calls-push_onto none s = record { at = λ c. omega arith }
  Calls-push_onto (some t) s = record { at = λ c. omega arith }

  Calls-apply_effect : (e : Effect) → Calls {W = W} 0 (apply_effect e)
  unfolding apply_effect push_interrupt
  Calls-apply_effect (push s) = record { at = λ c. (Calls-push_onto c.interrupt s).at c }
  Calls-apply_effect keep_alive_on = record { at = λ c. omega arith }
  Calls-apply_effect (set_realtime_factor f) = record { at = λ c. omega arith }
  Calls-apply_effect (announce_eta t) = record { at = λ c. omega arith }

  Calls-apply_effects : (es : List Effect) → Calls {W = W} 0 (apply_effects es)
  unfolding apply_effects pure
  Calls-apply_effects [] = record { at = λ c. omega arith }
  Calls-apply_effects (e ∷ es) =
      Calls-bind 0 0 _ _ (Calls-apply_effect e) λ _. Calls-apply_effects es

  Calls-process : (w : World W) (k : Kind) (n : ℕ) → Calls 1 (process w k n)
  unfolding process answer
  Calls-process w k n = record {
    at = λ c. omega (
      arith,
      (Calls-bind 0 0 (apply_effects (w.process k n c.sync c.world).effects)
            (λ _ d. ((w.process k n c.sync c.world).result, d))
            (Calls-apply_effects (w.process k n c.sync c.world).effects)
            (λ _. record { at = λ d. omega arith })).at
          (record c {
            world = (w.process k n c.sync c.world).after;
            trace = processed k n ∷ c.trace;
          }),
    );
  }

  Calls-if :
      {A : Type 0} (b : Bool) (k : ℕ) (m n : Engine W A)
      → Calls k m
      → Calls k n
      → Calls k (if b then m else n)
  Calls-if true k m n hm hn = hm
  Calls-if false k m n hm hn = hn

  Calls-gets : {A : Type 0} (f : Context W → A) → Calls 0 (gets f)
  unfolding gets
  Calls-gets f = record { at = λ c. omega arith }

  Calls-pure : {A : Type 0} (k : ℕ) (a : A) → Calls {W = W} k (pure a)
  unfolding pure
  Calls-pure k a = record { at = λ c. omega arith }

  Calls-raise : {A : Type 0} (k : ℕ) (e : Exn) → Calls {W = W} {A = A} k (raise e)
  unfolding raise
  Calls-raise k e = record { at = λ c. omega arith }

  Calls-weaken : {A : Type 0} (j k : ℕ) (m : Engine W A) → j ≤ k → Calls j m → Calls k m
  Calls-weaken j k m l h = record { at = λ c. omega (arith, h.at c) }

  Calls-catch_up : (w : World W) (left n : ℕ) → Calls (suc left) (catch_up w left n)
  unfolding catch_up
  Calls-catch_up w zero n = Calls-weaken (1 + (0 + 0)) 1 _ (omega arith) (
      Calls-bind 1 (0 + 0) _ _ (Calls-process w _ n) λ r.
        Calls-bind 0 0 _ _ (Calls-gets _) λ t. Calls-if _ 0 _ _ (Calls-raise 0 _) (Calls-pure 0 _))
  Calls-catch_up w (suc left) n =
      Calls-weaken (1 + (0 + suc left)) (suc (suc left)) _ (omega arith) (
        Calls-bind 1 (0 + suc left) _ _ (Calls-process w _ n) λ r.
          Calls-bind 0 (suc left) _ _ (Calls-gets _)
            λ t. Calls-if _ (suc left) _ _ (Calls-catch_up w left n) (Calls-pure (suc left) _))

ok-injective : {A : Type 0} {a b : A} → ok a ≡ ok b → a ≡ b
ok-injective e = cc

-- If `m` returns a time, it has reached the time of the simulation.
record Reaches {W : Type 0} (m : Engine W ℕ) : Type 0 where
  at : (c : Context W) (t : ℕ) → (m c).0 ≡ ok t → (m c).1.sync.time ≤ t

module _ {W : Type 0} where
  Reaches-continue :
      {A : Type 0} (r : Result A) (f : A → Engine W ℕ)
      → ((a : A) → Reaches (f a))
      → Reaches (continue r f)
  unfolding continue
  Reaches-continue (ok a) f h = record { at = (h a).at }
  Reaches-continue (throws e) f h = record { at = λ c t q. cc }
  Reaches-continue terminates f h = record { at = λ c t q. cc }

  Reaches-bind :
      {A : Type 0} (m : Engine W A) (f : A → Engine W ℕ)
      → ((a : A) → Reaches (f a))
      → Reaches (m >>= f)
  unfolding ◌>>=◌
  Reaches-bind m f h = record {
    at = λ c t q. let (r, d) = m c in (Reaches-continue r f h).at d t q;
  }

  Reaches-at :
      (b : Bool) (r : ℕ) (late : Engine W ℕ) (c : Context W) (t : ℕ)
      → ltb r c.sync.time ≡ b
      → Reaches late
      → ((if b then late else pure r) c).0 ≡ ok t
      → ((if b then late else pure r) c).1.sync.time ≤ t
  unfolding pure
  Reaches-at true r late c t h k q = k.at c t q
  Reaches-at false r late c t h k q = ground (arith, h, ok-injective q)

  Reaches-test :
      (r : ℕ) (late : Engine W ℕ)
      → Reaches late
      → Reaches (gets (λ c. c.sync.time) >>= λ t. if ltb r t then late else pure r)
  unfolding ◌>>=◌ gets continue
  Reaches-test r late h = record {
    at = λ c t q. Reaches-at (ltb r c.sync.time) r late c t refl h q;
  }

  Reaches-raise : (e : Exn) → Reaches {W = W} (raise e)
  unfolding raise
  Reaches-raise e = record { at = λ c t q. cc }

  Reaches-catch_up : (w : World W) (left n : ℕ) → Reaches (catch_up w left n)
  unfolding catch_up
  Reaches-catch_up w zero n = Reaches-bind _ _ λ r. Reaches-test r _ (Reaches-raise _)
  Reaches-catch_up w (suc left) n =
      Reaches-bind _ _ λ r. Reaches-test r _ (Reaches-catch_up w left n)

-- With `left` retries left, a controller is asked to process at most `left + 1` times, whatever it
-- does, and no other call is made.
catch_up-length :
    {W : Type 0} (w : World W) (left n : ℕ) (c : Context W)
    → length (catch_up w left n c).1.trace ≤ length c.trace + suc left
catch_up-length w left n c = (Calls-catch_up w left n).at c

-- If waiting for a controller returns a time, then the controller has reached the time of the
-- simulation: one that does not get there in time ends in an exception.
catch_up-reaches :
    {W : Type 0} (w : World W) (left n t : ℕ) (c : Context W)
    → (catch_up w left n c).0 ≡ ok t
    → (catch_up w left n c).1.sync.time ≤ t
catch_up-reaches w left n t c e = (Reaches-catch_up w left n).at c t e

answered :
    {W : Type 0} (r : Result ℕ × Context W)
    → ((t : ℕ) → r.0 ≡ ok t → r.1.sync.time ≤ t)
    → ((t : ℕ) × (r.0 ≡ ok t) × (r.1.sync.time ≤ t))
      ⊎ (((e : Exn) × (r.0 ≡ throws e)) ⊎ (r.0 ≡ terminates))
answered (ok t, c) reached = inl (t, refl, reached t refl)
answered (throws e, c) reached = inr (inl (e, refl))
answered (terminates, c) reached = inr (inr refl)

-- Where the retry limit is not negative, and `left` retries are left: whatever a controller does,
-- at most `left + 1` calls are made of it; and then either it has reached the time of the
-- simulation, and its time is the result, or there is an exception, as always if it does not get
-- there in time, or the process has ended.
pub catch_up-answers :
    {W : Type 0} (w : World W) (left n : ℕ) (c : Context W)
    → (length (catch_up w left n c).1.trace ≤ length c.trace + suc left)
      × (((t : ℕ) × ((catch_up w left n c).0 ≡ ok t) × ((catch_up w left n c).1.sync.time ≤ t))
          ⊎ (((e : Exn) × ((catch_up w left n c).0 ≡ throws e))
              ⊎ ((catch_up w left n c).0 ≡ terminates)))
catch_up-answers w left n c = (
  catch_up-length w left n c,
  answered (catch_up w left n c) (λ t. catch_up-reaches w left n t c),
)
