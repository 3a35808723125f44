-- ===== src/Fable/Meaning.antt =====
-- That `interpolate` gives a template its meaning: fable/src/fable/environment.cpp.
use cloe.Prelude.{
  ℕ, suc, ◌+◌, ◌≡◌, refl, ap, sym, ◌∙◌, Bool, true, none, some, List, [], ◌∷◌, ◌++◌, length, ◌==◌,
  append_nil, append_one, arith, Bool-cases, inl, inr,
}
use cloe.Prelude.Texts.{Text}
use cloe.Fable.Environment.{
  Result, returned, thrown, and_return, Environment, drop, slice, scan, find_dash, further,
  alternative, raw_key, evaluate, interpolate,
}
use cloe.Fable.Templates.{
  Piece, literal, variable, variable_or, render, is_plain, is_undashed, is_fit, value_of, meaning,
  length-append, append_assoc, drop-length, slice-drop,
}
use cloe.Fable.Scan.{At, scan-plain, append_slice-At, scan-literal, scan-token}

drop-all : (t : Text) → drop (length t) t ≡ []
unfolding drop
drop-all [] = refl
drop-all (c ∷ cs) = drop-all cs

scan-end :
    (s : Text) (ev : Text → Result) (out pre text : Text) (st : ℕ)
    → At s out pre st [] text
    → scan s ev [] out st (length pre) 0 ≡ returned text
unfolding scan
scan-end s ev out pre text st a = elim (Bool-cases (st == length pre)) [
  | (inl e) ↦ ground (
    arith,
    ap returned (
        sym (append_nil out)
        ∙ ap (λ u. out ++ u) (sym (drop-all pre))
        ∙ ap (λ n. out ++ drop n pre) (same st (length pre) e)
        ∙ a.2),
  )
  | (inr e) ↦ ground (arith, append_slice-At s ev out pre [] text st (λ t. returned t) a)
]
  where
    same : (n m : ℕ) → (n == m) ≡ true → m ≡ n
    same n m e = ground arith

-- A text without dollars and braces is left as it is.
interpolate-plain :
    (fuel : ℕ) (p u : Bool) (env : Environment) (t : Text)
    → is_plain t ≡ true
    → interpolate (suc fuel) p u env t ≡ returned t
unfolding interpolate drop
interpolate-plain fuel p u env t h =
    let ev = evaluate (interpolate fuel p u env) p u env in
    ap (λ z. scan t ev z [] 0 0 0) (sym (append_nil t))
    ∙ scan-plain t ev t [] [] 0 0 0 h
    ∙ ap (λ n. scan t ev [] [] 0 n 0) (omega arith)
    ∙ scan-end t ev [] t t 0 (omega arith, sym (append_nil t), refl)

find_dash-undashed : (key : Text) → is_undashed key ≡ true → find_dash key ≡ none
unfolding find_dash is_undashed further
find_dash-undashed [] h = refl
find_dash-undashed (c ∷ cs) h = ground (arith, find_dash-undashed cs)

find_dash-append :
    (key t : Text) → is_undashed key ≡ true → find_dash (key ++ 45 ∷ t) ≡ some (length key)
unfolding find_dash is_undashed further
find_dash-append [] t h = refl
find_dash-append (c ∷ cs) t h = ground (arith, find_dash-append cs t)

is_plain-append :
    (a b : Text) → is_plain a ≡ true → is_plain b ≡ true → is_plain (a ++ 45 ∷ b) ≡ true
unfolding is_plain
is_plain-append [] b h k = ground arith
is_plain-append (c ∷ cs) b h k = ground (arith, is_plain-append cs b)

whole : (r : Result) → and_return r (λ x. returned ([] ++ x)) ≡ r
unfolding and_return
whole (returned x) = refl
whole (thrown e) = refl

joined : (key t rest : Text) → key ++ 45 ∷ (t ++ 125 ∷ rest) ≡ (key ++ 45 ∷ t) ++ 125 ∷ rest
joined key t rest = sym (append_assoc key (45 ∷ t) (125 ∷ rest))

module _ (fuel : ℕ) (p u : Bool) (env : Environment) where
  evaluated : Text → Result
  evaluated = evaluate (interpolate (suc fuel) p u env) p u env

  evaluate-variable :
      (key : Text)
      → is_plain key ≡ true
      → is_undashed key ≡ true
      → evaluated key ≡ value_of p u env key none
  unfolding evaluated evaluate and_return raw_key alternative value_of
  evaluate-variable key h k =
      ground (arith, find_dash-undashed key k, interpolate-plain fuel p u env key h)

  behind_dash :
      (key t : Text) → slice (key ++ 45 ∷ t) (length key + 1) (length (key ++ 45 ∷ t)) ≡ returned t
  behind_dash key t =
      let all = key ++ 45 ∷ t in
      ap (λ z. slice z (length key + 1) (length all)) (sym (append_nil all))
      ∙ slice-drop (length key + 1) (length all) all [] (omega (arith, length-append key (45 ∷ t)))
          refl
      ∙ ap returned (
          ap (λ n. drop n all) (omega (arith, length-append key (45 ∷ [])))
          ∙ ap (λ z. drop (length (key ++ 45 ∷ [])) z) (sym (append_one key 45 t))
          ∙ drop-length (key ++ 45 ∷ []) t)

  evaluate-variable_or :
      (key t : Text)
      → is_plain key ≡ true
      → is_undashed key ≡ true
      → is_plain t ≡ true
      → evaluated (key ++ 45 ∷ t) ≡ value_of p u env key (some t)
  unfolding evaluated evaluate and_return raw_key alternative value_of drop
  evaluate-variable_or key t h k l =
      let before = slice-drop 0 (length key) key (45 ∷ t) (omega arith) refl in
      let behind = behind_dash key t in
      ground (
        arith,
        find_dash-append key t k,
        interpolate-plain fuel p u env key h,
        interpolate-plain fuel p u env t l,
      )

  -- The text of a piece goes in front of that of the others.
  shift :
      (r : Result) (t text : Text)
      → and_return r (λ x. returned ((text ++ t) ++ x))
        ≡ and_return (and_return r (λ x. returned (t ++ x))) (λ x. returned (text ++ x))
  unfolding and_return
  shift (returned x) t text = ap returned (append_assoc text t x)
  shift (thrown e) t text = refl

  shift_value :
      (v r : Result) (text : Text) (f : Text → Result)
      → ((t : Text) → f t ≡ and_return r (λ x. returned ((text ++ t) ++ x)))
      → and_return v f
        ≡ and_return
            (and_return v (λ t. and_return r (λ x. returned (t ++ x))))
            (λ x. returned (text ++ x))
  unfolding and_return
  shift_value (returned t) r text f k = k t ∙ shift r t text
  shift_value (thrown e) r text f k = refl

  behind :
      (s tok rest out pre text v : Text) (st : ℕ)
      → At s out pre st (36 ∷ 123 ∷ (tok ++ 125 ∷ rest)) text
      → let end = pre ++ 36 ∷ 123 ∷ (tok ++ 125 ∷ []) in
        At s (text ++ v) end (length end) rest (text ++ v)
  behind s tok rest out pre text v st a =
      let end = pre ++ 36 ∷ 123 ∷ (tok ++ 125 ∷ []) in
      (
        omega arith,
        a.1
            ∙ ap (λ z. pre ++ 36 ∷ 123 ∷ z) (sym (append_one tok 125 rest))
            ∙ sym (append_assoc pre (36 ∷ 123 ∷ (tok ++ 125 ∷ [])) rest),
        ap (λ z. (text ++ v) ++ z) (drop-all end) ∙ append_nil (text ++ v),
      )

  over :
      (s tok rest out pre text : Text) (st : ℕ) (w r : Result)
      → is_plain tok ≡ true
      → evaluated tok ≡ w
      → At s out pre st (36 ∷ 123 ∷ (tok ++ 125 ∷ rest)) text
      → ((v o q : Text) (n : ℕ)
          → At s o q n rest (text ++ v)
          → scan s evaluated rest o n (length q) 0
            ≡ and_return r (λ x. returned ((text ++ v) ++ x)))
      → scan s evaluated (36 ∷ 123 ∷ (tok ++ 125 ∷ rest)) out st (length pre) 0
        ≡ and_return
            (and_return w (λ t. and_return r (λ x. returned (t ++ x))))
            (λ x. returned (text ++ x))
  over s tok rest out pre text st w r h e a k =
      let end = pre ++ 36 ∷ 123 ∷ (tok ++ 125 ∷ []) in
      scan-token s evaluated tok rest out pre text st h a
      ∙ ap (λ z. and_return z (λ v. scan s evaluated rest (text ++ v) (length end) (length end) 0))
          e
      ∙ shift_value w r text _
          (λ v. k v (text ++ v) end (length end) (behind s tok rest out pre text v st a))

  scan-render :
      (ps : List Piece) (s out pre text : Text) (st : ℕ)
      → is_fit ps ≡ true
      → At s out pre st (render ps) text
      → scan s evaluated (render ps) out st (length pre) 0
        ≡ and_return (meaning p u env ps) (λ r. returned (text ++ r))
  unfolding render meaning is_fit and_return
  scan-render [] s out pre text st f a =
      scan-end s evaluated out pre text st a ∙ ap returned (sym (append_nil text))
  scan-render (literal t ∷ ps) s out pre text st f a =
      scan-literal s evaluated t (render ps) out pre text st _ a
        (λ o q n b. scan-render ps s o q (text ++ t) n f b ∙ shift (meaning p u env ps) t text)
  scan-render (variable key ∷ ps) s out pre text st f a =
      over s key (render ps) out pre text st (value_of p u env key none) (meaning p u env ps)
        (ground arith) (evaluate-variable key (ground arith) (ground arith)) a
        (λ v o q n b. scan-render ps s o q (text ++ v) n (ground arith) b)
  scan-render (variable_or key t ∷ ps) s out pre text st f a =
      ap (λ z. scan s evaluated (36 ∷ 123 ∷ z) out st (length pre) 0) (joined key t (render ps))
      ∙ over s (key ++ 45 ∷ t) (render ps) out pre text st (value_of p u env key (some t))
          (meaning p u env ps) (is_plain-append key t (ground arith) (ground arith))
          (evaluate-variable_or key t (ground arith) (ground arith) (ground arith))
          (a.0, a.1 ∙ ap (λ z. pre ++ 36 ∷ 123 ∷ z) (joined key t (render ps)), a.2)
          (λ v o q n b. scan-render ps s o q (text ++ v) n (ground arith) b)

-- A text that is put together from literal texts, with their dollars doubled, and from variables,
-- with or without a default, is interpolated to what the pieces stand for, or to the first error
-- among them, once the recursion has two levels. The names have no dollar, closing brace or dash,
-- and the defaults neither of the first two.
pub interpolate-render :
    (fuel : ℕ) (p u : Bool) (env : Environment) (ps : List Piece)
    → is_fit ps ≡ true
    → interpolate (suc (suc fuel)) p u env (render ps) ≡ meaning p u env ps
unfolding interpolate evaluated drop
interpolate-render fuel p u env ps f =
    scan-render fuel p u env ps (render ps) [] [] [] 0 f (omega arith, refl, refl)
    ∙ whole (meaning p u env ps)
