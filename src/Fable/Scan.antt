-- ===== src/Fable/Scan.antt =====
-- How the loop of `interpolate` goes over literal texts and variables:
-- fable/src/fable/environment.cpp.
use cloe.Prelude.{
  ℕ, ◌+◌, ◌≤◌, ◌≡◌, refl, ap, sym, subst, ◌∙◌, Bool, true, false, not, ◌&&◌, [], ◌∷◌, ◌++◌, length,
  ◌==◌, if◌then◌else◌, append_nil, append_one, arith,
}
use cloe.Prelude.Texts.{Text}
use cloe.Fable.Environment.{
  Result, returned, and_return, drop, slice, special, after_dollar, append_slice, scan,
}
use cloe.Fable.Templates.{
  escape, is_plain, length-append, append_assoc, drop-length, slice-drop, drop-append,
}

-- The loop is behind `pre`, before `rest`, with `text` as its output up to here.
abbrev pub At : Text → Text → Text → ℕ → Text → Text → Type 0
At s out pre st rest text = (st ≤ length pre) × (s ≡ pre ++ rest) × (out ++ drop st pre ≡ text)

module _ (s : Text) (ev : Text → Result) where
  -- A character that does not count at this depth.
  scan-skip :
      (c : ℕ) (rest out : Text) (st pos d : ℕ)
      → (c == 36) ≡ false
      → (c == 125) && not (d == 0) ≡ false
      → scan s ev (c ∷ rest) out st pos d ≡ scan s ev rest out st (pos + 1) d
  unfolding scan special
  scan-skip c [] out st pos d e f = ground arith
  scan-skip c (x ∷ xs) out st pos d e f = ground arith

  pub scan-plain :
      (tok rest out : Text) (st pos d : ℕ)
      → is_plain tok ≡ true
      → scan s ev (tok ++ rest) out st pos d ≡ scan s ev rest out st (pos + length tok) d
  unfolding is_plain
  scan-plain [] rest out st pos d h = ap (λ p. scan s ev rest out st p d) (omega arith)
  scan-plain (c ∷ cs) rest out st pos d h =
      scan-skip c (cs ++ rest) out st pos d (ground arith) (ground arith)
      ∙ scan-plain cs rest out st (pos + 1) d (ground arith)
      ∙ ap (λ p. scan s ev rest out st p d) (omega arith)

  pub append_slice-At :
      (out pre rest text : Text) (st : ℕ) (f : Text → Result)
      → At s out pre st rest text
      → append_slice s st (length pre) out f ≡ f text
  unfolding append_slice and_return
  append_slice-At out pre rest text st f (l, e, t) =
      ap (λ r. and_return r (λ u. f (out ++ u)))
        (ap (λ z. slice z st (length pre)) e ∙ slice-drop st (length pre) pre rest l refl)
      ∙ ap f t

  At-skip :
      (c : ℕ) (out pre rest text : Text) (st : ℕ)
      → At s out pre st (c ∷ rest) text
      → At s out (pre ++ c ∷ []) st rest (text ++ c ∷ [])
  At-skip c out pre rest text st (l, e, t) = (
    omega (arith, l, length-append pre (c ∷ [])),
    e ∙ sym (append_one pre c rest),
    ap (λ u. out ++ u) (drop-append st pre (c ∷ []) l)
        ∙ sym (append_assoc out (drop st pre) (c ∷ []))
        ∙ ap (λ u. u ++ c ∷ []) t,
  )

  -- Behind an escaped dollar, of which the second character is still to be put out.
  At-escaped :
      (pre rest text : Text)
      → s ≡ pre ++ 36 ∷ 36 ∷ rest
      → At s text (pre ++ 36 ∷ 36 ∷ []) (length pre + 1) rest (text ++ 36 ∷ [])
  At-escaped pre rest text e = (
    omega (arith, length-append pre (36 ∷ 36 ∷ [])),
    e ∙ sym (append_assoc pre (36 ∷ 36 ∷ []) rest),
    ap (λ u. text ++ u)
        (ap (λ n. drop n (pre ++ 36 ∷ 36 ∷ [])) (sym (length-append pre (36 ∷ [])))
          ∙ ap (λ z. drop (length (pre ++ 36 ∷ [])) z) (sym (append_one pre 36 (36 ∷ [])))
          ∙ drop-length (pre ++ 36 ∷ []) (36 ∷ [])),
  )

  literal_on :
      (b : Bool) (c : ℕ) (w rest out pre text : Text) (st : ℕ) (r : Result)
      → (c == 36) ≡ b
      → At s out pre st ((if b then 36 ∷ 36 ∷ w else c ∷ w) ++ rest) text
      → ((out' pre' : Text) (st' : ℕ)
          → At s out' pre' st' (w ++ rest) (text ++ c ∷ [])
          → scan s ev (w ++ rest) out' st' (length pre') 0 ≡ r)
      → scan s ev ((if b then 36 ∷ 36 ∷ w else c ∷ w) ++ rest) out st (length pre) 0 ≡ r
  unfolding scan special after_dollar
  literal_on true c w rest out pre text st r e a k =
      append_slice-At out pre (36 ∷ 36 ∷ (w ++ rest)) text st
        (λ t. scan s ev (w ++ rest) t (length pre + 1) (length pre + 2) 0) a
      ∙ ap (λ p. scan s ev (w ++ rest) text (length pre + 1) p 0)
          (omega (arith, length-append pre (36 ∷ 36 ∷ [])))
      ∙ k text (pre ++ 36 ∷ 36 ∷ []) (length pre + 1) (
          subst (λ d. At s text (pre ++ 36 ∷ 36 ∷ []) (length pre + 1) (w ++ rest) (text ++ d ∷ []))
            (ground arith) (At-escaped pre (w ++ rest) text a.1))
  literal_on false c w rest out pre text st r e a k =
      scan-skip c (w ++ rest) out st (length pre) 0 e (ground arith)
      ∙ ap (λ p. scan s ev (w ++ rest) out st p 0) (omega (arith, length-append pre (c ∷ [])))
      ∙ k out (pre ++ c ∷ []) st (At-skip c out pre (w ++ rest) text st a)

  -- Over a literal text, to what comes behind it.
  pub scan-literal :
      (t rest out pre text : Text) (st : ℕ) (r : Result)
      → At s out pre st (escape t ++ rest) text
      → ((out' pre' : Text) (st' : ℕ)
          → At s out' pre' st' rest (text ++ t)
          → scan s ev rest out' st' (length pre') 0 ≡ r)
      → scan s ev (escape t ++ rest) out st (length pre) 0 ≡ r
  unfolding escape
  scan-literal [] rest out pre text st r a k = k out pre st (a.0, a.1, a.2 ∙ sym (append_nil text))
  scan-literal (c ∷ cs) rest out pre text st r a k =
      literal_on (c == 36) c (escape cs) rest out pre text st r refl a (λ out' pre' st' a'.
        scan-literal cs rest out' pre' (text ++ c ∷ []) st' r a'
          (λ o p n b. k o p n (subst (At s o p n rest) (append_one text c cs) b)))

  scan-close :
      (tok rest out : Text) (start pos : ℕ)
      → slice s (start + 2) pos ≡ returned tok
      → scan s ev (125 ∷ rest) out start pos 1
        ≡ and_return (ev tok) (λ v. scan s ev rest (out ++ v) (pos + 1) (pos + 1) 0)
  unfolding scan special and_return
  scan-close tok [] out start pos e =
      ap
        (λ t.
          and_return t
            (λ token. and_return (ev token) (λ v. scan s ev [] (out ++ v) (pos + 1) (pos + 1) 0)))
        e
  scan-close tok (x ∷ xs) out start pos e =
      ap
        (λ t. and_return t (λ token.
          and_return (ev token) (λ v. scan s ev (x ∷ xs) (out ++ v) (pos + 1) (pos + 1) 0)))
        e

  token_at :
      (tok rest pre : Text)
      → s ≡ pre ++ 36 ∷ 123 ∷ (tok ++ 125 ∷ rest)
      → slice s (length pre + 2) (length pre + 2 + length tok) ≡ returned tok
  token_at tok rest pre e =
      let before = pre ++ 36 ∷ 123 ∷ [] in
      let two = length-append pre (36 ∷ 123 ∷ []) in
      ap (λ z. slice z (length pre + 2) (length pre + 2 + length tok))
        (e
          ∙ sym (append_assoc pre (36 ∷ 123 ∷ []) (tok ++ 125 ∷ rest))
          ∙ sym (append_assoc before tok (125 ∷ rest)))
      ∙ slice-drop (length pre + 2) (length pre + 2 + length tok) (before ++ tok) (125 ∷ rest)
          (omega (arith, two, length-append before tok))
          (omega (arith, two, length-append before tok))
      ∙ ap returned (ap (λ n. drop n (before ++ tok)) (omega (arith, two)) ∙ drop-length before tok)

  -- Over a variable, to what comes behind it: the output has the value of what is between the
  -- braces.
  pub scan-token :
      (tok rest out pre text : Text) (st : ℕ)
      → is_plain tok ≡ true
      → At s out pre st (36 ∷ 123 ∷ (tok ++ 125 ∷ rest)) text
      → let end = pre ++ 36 ∷ 123 ∷ (tok ++ 125 ∷ []) in
        scan s ev (36 ∷ 123 ∷ (tok ++ 125 ∷ rest)) out st (length pre) 0
        ≡ and_return (ev tok) (λ v. scan s ev rest (text ++ v) (length end) (length end) 0)
  unfolding scan special after_dollar
  scan-token tok rest out pre text st h a =
      append_slice-At out pre (36 ∷ 123 ∷ (tok ++ 125 ∷ rest)) text st
        (λ t. scan s ev (tok ++ 125 ∷ rest) t (length pre) (length pre + 2) 1) a
      ∙ scan-plain tok (125 ∷ rest) text (length pre) (length pre + 2) 1 h
      ∙ scan-close tok rest text (length pre) (length pre + 2 + length tok)
          (token_at tok rest pre a.1)
      ∙ ap (λ p. and_return (ev tok) (λ v. scan s ev rest (text ++ v) p p 0))
          (omega
            (arith, length-append pre (36 ∷ 123 ∷ (tok ++ 125 ∷ [])), length-append tok (125 ∷ [])))
