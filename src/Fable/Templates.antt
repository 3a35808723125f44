-- ===== src/Fable/Templates.antt =====
-- What `interpolate` makes of a text that is put together from literal texts and variables:
-- fable/src/fable/environment.cpp.
use cloe.Prelude.{
  ℕ, zero, suc, ◌+◌, ◌-◌, ◌≤◌, ◌≡◌, refl, ap, ◌∙◌, Bool, true, not, ◌&&◌, Option, none, some, List,
  [], ◌∷◌, ◌++◌, length, ◌==◌, if◌then◌else◌, arith,
}
use cloe.Prelude.Texts.{Text}
use cloe.Fable.Environment.{
  out_of_range, Result, returned, thrown, and_return, Environment, take, drop, slice, get,
}

pub data Piece : Type 0 where
  literal : Text → Piece
  variable : Text → Piece
  -- A variable and the text that stands for it where it has no value.
  variable_or : Text → Text → Piece

-- Each dollar of a literal text is doubled.
unfoldable pub escape : Text → Text
escape [] = []
escape (c ∷ cs) = let rest = escape cs in if c == 36 then 36 ∷ 36 ∷ rest else c ∷ rest

unfoldable pub render : List Piece → Text
unfolding escape
render [] = []
render (literal t ∷ ps) = escape t ++ render ps
render (variable key ∷ ps) = 36 ∷ 123 ∷ (key ++ 125 ∷ render ps)
render (variable_or key t ∷ ps) = 36 ∷ 123 ∷ (key ++ 45 ∷ (t ++ 125 ∷ render ps))

-- A name without the dollar, the closing brace and the dash; a default without the first two.
unfoldable pub is_plain : Text → Bool
is_plain [] = true
is_plain (c ∷ cs) = not (c == 36) && not (c == 125) && is_plain cs

unfoldable pub is_undashed : Text → Bool
is_undashed [] = true
is_undashed (c ∷ cs) = not (c == 45) && is_undashed cs

unfoldable pub is_fit : List Piece → Bool
unfolding is_plain is_undashed
is_fit [] = true
is_fit (literal t ∷ ps) = is_fit ps
is_fit (variable key ∷ ps) = is_plain key && is_undashed key && is_fit ps
is_fit (variable_or key t ∷ ps) = is_plain key && is_undashed key && is_plain t && is_fit ps

-- The value of a variable, and the text that the pieces stand for, up to the first error.
unfoldable pub value_of : Bool → Bool → Environment → Text → Option Text → Result
unfolding get
value_of prefer_external allow_undefined env key fallback = elim (get prefer_external key env) [
  | (some t) ↦ returned t
  | none ↦ elim fallback [
    | (some t) ↦ returned t
    | none ↦ if allow_undefined then returned [] else thrown out_of_range
  ]
]

unfoldable pub meaning : Bool → Bool → Environment → List Piece → Result
unfolding value_of and_return
meaning p u env [] = returned []
meaning p u env (literal t ∷ ps) = and_return (meaning p u env ps) (λ r. returned (t ++ r))
meaning p u env (variable key ∷ ps) =
    and_return (value_of p u env key none)
      (λ v. and_return (meaning p u env ps) (λ r. returned (v ++ r)))
meaning p u env (variable_or key t ∷ ps) =
    and_return (value_of p u env key (some t))
      (λ v. and_return (meaning p u env ps) (λ r. returned (v ++ r)))

pub length-append : (a b : Text) → length (a ++ b) ≡ length a + length b
length-append [] b = omega arith
length-append (c ∷ cs) b = omega (arith, length-append cs b)

pub append_assoc : (a b c : Text) → (a ++ b) ++ c ≡ a ++ (b ++ c)
append_assoc [] b c = refl
append_assoc (x ∷ xs) b c = ap (λ l. x ∷ l) (append_assoc xs b c)

take-length : (a b : Text) → take (length a) (a ++ b) ≡ a
unfolding take
take-length [] b = refl
take-length (c ∷ cs) b = ap (λ l. c ∷ l) (take-length cs b)

pub drop-length : (a b : Text) → drop (length a) (a ++ b) ≡ b
unfolding drop
drop-length [] b = refl
drop-length (c ∷ cs) b = drop-length cs b

-- The part of a text from `start` to where the rest begins.
take-drop :
    (start : ℕ) (pre rest : Text)
    → start ≤ length pre
    → take (length pre - start) (drop start (pre ++ rest)) ≡ drop start pre
unfolding drop
take-drop zero pre rest l = ap (λ n. take n (pre ++ rest)) (omega arith) ∙ take-length pre rest
take-drop (suc n) [] rest l = absurd (omega arith)
take-drop (suc n) (c ∷ cs) rest l =
    ap (λ k. take k (drop n (cs ++ rest))) (omega arith) ∙ take-drop n cs rest (omega arith)

pub slice-drop :
    (start pos : ℕ) (pre rest : Text)
    → start ≤ length pre
    → pos ≡ length pre
    → slice (pre ++ rest) start pos ≡ returned (drop start pre)
unfolding slice
slice-drop start pos pre rest l e =
    ground (arith, take-drop start pre rest l, length-append pre rest)

pub drop-append :
    (start : ℕ) (pre rest : Text)
    → start ≤ length pre
    → drop start (pre ++ rest) ≡ drop start pre ++ rest
unfolding drop
drop-append zero pre rest l = refl
drop-append (suc n) [] rest l = absurd (omega arith)
drop-append (suc n) (c ∷ cs) rest l = drop-append n cs rest (omega arith)
