-- ===== src/Models/Actuation.antt =====
-- What an actuator may do, and whether a controller's requests agree with the control it reports:
-- models/include/cloe/utility/actuation_level.hpp and models/src/cloe/utility/actuation_state.cpp.
use cloe.Prelude.{
  ℕ, zero, suc, ◌+◌, ◌*◌, ◌/◌, ◌%◌, ◌≡◌, refl, Bool, true, false, not, ◌&&◌, ◌||◌, Option, none,
  some, is_some, leb, ◌==◌, if◌then◌else◌, arith, sym, subst,
}

-- `enum_`: None 0, Long 1, Lat 2, LatLong 3, Standby 4. Its two lowest bits are the controls.
abbrev pub ActuationLevel : Type 0
ActuationLevel = ℕ

-- `enum_ & Long` and `enum_ & Lat`.
unfoldable pub long_bit : ActuationLevel → ℕ
long_bit e = e % 2

unfoldable pub lat_bit : ActuationLevel → ℕ
lat_bit e = e / 2 % 2 * 2

unfoldable pub is_valid : ActuationLevel → Bool
is_valid e = leb e 4

unfoldable pub has_lat : ActuationLevel → Bool
unfolding lat_bit
has_lat e = not (lat_bit e == 0)

unfoldable pub has_long : ActuationLevel → Bool
unfolding long_bit
has_long e = not (long_bit e == 0)

-- `enum_ & LatLong`.
unfoldable pub has_control : ActuationLevel → Bool
has_control e = not (e % 4 == 0)

-- With `Long` and `Lat` apart in the bits, `|` adds.
unfoldable pub set_lat : ActuationLevel → ActuationLevel
unfolding long_bit
set_lat e = long_bit e + 2

unfoldable pub set_long : ActuationLevel → ActuationLevel
unfolding lat_bit
set_long e = lat_bit e + 1

-- The constructor `ActuationLevel(bool lat, bool lng)`.
unfoldable pub of_controls : Bool → Bool → ActuationLevel
unfolding set_lat set_long
of_controls lat lng = let e = if lat then set_lat 0 else 0 in if lng then set_long e else e

-- A level made from two controls has exactly these, and it is valid.
pub has-of_controls :
    (lat lng : Bool)
    → (has_lat (of_controls lat lng) ≡ lat)
      × (has_long (of_controls lat lng) ≡ lng)
      × (is_valid (of_controls lat lng) ≡ true)
unfolding has_lat has_long of_controls is_valid
has-of_controls true true = (refl, refl, refl)
has-of_controls true false = (refl, refl, refl)
has-of_controls false true = (refl, refl, refl)
has-of_controls false false = (refl, refl, refl)

-- From any level, valid or not, setting the lateral control gives a valid level that has it and
-- keeps the longitudinal control as it was; and the other way round.
pub set-keeps :
    (e : ActuationLevel)
    → ((has_lat (set_lat e) ≡ true)
        × (has_long (set_lat e) ≡ has_long e)
        × (is_valid (set_lat e) ≡ true))
      × ((has_long (set_long e) ≡ true)
          × (has_lat (set_long e) ≡ has_lat e)
          × (is_valid (set_long e) ≡ true))
unfolding has_lat has_long set_lat set_long is_valid
set-keeps e =
    ((ground arith, ground arith, ground arith), (ground arith, ground arith, ground arith))

-- A level has control if and only if it has the lateral or the longitudinal one.
pub has_control-controls : (e : ActuationLevel) → has_control e ≡ (has_lat e || has_long e)
unfolding has_control has_lat has_long
has_control-controls e = ground arith

-- The requests of a controller. `D` is the type of the program's doubles.
pub record ActuationState (D : Type 0) : Type 0 where
  pub aeb_active : Bool
  pub fct_control : ActuationLevel
  pub acceleration : Option D
  pub steering_angle : Option D
  pub steering_torque : Option D

module _ {D : Type 0} (negative : D → Bool) (equal : D → D → Bool) where
  unfoldable pub braking : Option D → Bool
  braking none = false
  braking (some a) = negative a

  -- `!=` on optional values.
  unfoldable pub differ : Option D → Option D → Bool
  differ none none = false
  differ none (some b) = true
  differ (some a) none = true
  differ (some a) (some b) = not (equal a b)

  -- `none` where the assertion fails.
  unfoldable pub is_consistent : ActuationState D → Option Bool
  is_consistent s =
      if not (is_valid s.fct_control)
      then none
      else let aeb = s.aeb_active && braking s.acceleration in
        let none_set =
          not (is_some s.acceleration || is_some s.steering_angle || is_some s.steering_torque) in
        let long_set =
          is_some s.acceleration
          && not (is_some s.steering_angle)
          && not (is_some s.steering_torque) in
        let lat_set = not (is_some s.acceleration) && differ s.steering_angle s.steering_torque in
        let both_set = is_some s.acceleration && differ s.steering_angle s.steering_torque in
        some (
          if s.fct_control == 0
          then aeb || none_set
          else if s.fct_control == 4
          then aeb || none_set
          else if s.fct_control == 1
          then aeb || long_set
          else if s.fct_control == 2
          then aeb || lat_set
          else if s.fct_control == 3
          then aeb || both_set
          else aeb)

  -- What the requests should be for a level of control.
  abbrev pub same : Bool → Bool → Bool
  same true b = b
  same false b = not b

  abbrev pub agrees : ActuationState D → Bool
  agrees s =
      same (has_long s.fct_control) (is_some s.acceleration)
      && (if has_lat s.fct_control
          then differ s.steering_angle s.steering_torque
          else not (is_some s.steering_angle || is_some s.steering_torque))

  consistent_at :
      (l : ActuationLevel) (a g t : Option D)
      → is_valid l ≡ true
      → let s : ActuationState D = record {
        aeb_active = false;
        fct_control = l;
        acceleration = a;
        steering_angle = g;
        steering_torque = t;
      } in
        is_consistent s ≡ some (agrees s)
  unfolding is_consistent is_valid has_lat has_long
  consistent_at zero none g t v = refl
  consistent_at zero (some a) g t v = refl
  consistent_at (suc zero) none g t v = refl
  consistent_at (suc zero) (some a) none t v = refl
  consistent_at (suc zero) (some a) (some g) t v = refl
  consistent_at (suc (suc zero)) none g t v = refl
  consistent_at (suc (suc zero)) (some a) g t v = refl
  consistent_at (suc (suc (suc zero))) none g t v = refl
  consistent_at (suc (suc (suc zero))) (some a) g t v = refl
  consistent_at (suc (suc (suc (suc zero)))) none g t v = refl
  consistent_at (suc (suc (suc (suc zero)))) (some a) g t v = refl
  consistent_at (suc (suc (suc (suc (suc l))))) a g t v = ground arith

  -- Without AEB, the requests that count as consistent are those where an acceleration is set if
  -- and only if the controller reports longitudinal control, and the steering angle and the torque
  -- differ if it reports lateral control and are both unset if it does not. Two that are set to
  -- different values differ.
  pub is_consistent-agrees :
      (s : ActuationState D)
      → is_valid s.fct_control ≡ true
      → s.aeb_active ≡ false
      → is_consistent s ≡ some (agrees s)
  is_consistent-agrees s v e =
      subst (λ b. is_consistent (record s { aeb_active = b }) ≡ some (agrees s)) (sym e)
        (consistent_at s.fct_control s.acceleration s.steering_angle s.steering_torque v)
