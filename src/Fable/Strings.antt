-- ===== src/Fable/Strings.antt =====
-- Splitting and joining of texts: fable/src/fable/utility/string.cpp. A text is a list of its code
-- units.
use cloe.Prelude.{
  ℕ, zero, suc, ◌≤◌, ◌≡◌, ◌≢◌, ◌⊎◌, inl, inr, refl, ap, sym, subst, ◌∙◌, Option, none, some, List,
  [], ◌∷◌, ◌++◌, length, ◌==◌, if◌then◌else◌, append_nil, arith,
}
use cloe.Prelude.Texts.{Text}
use cloe.Fable.Templates.{append_assoc, length-append}

-- The separator goes between two texts.
unfoldable pub join_vector : List Text → Text → Text
join_vector [] sep = []
join_vector (v ∷ []) sep = v
join_vector (v ∷ w ∷ vs) sep = v ++ (sep ++ join_vector (w ∷ vs) sep)

-- What is behind the prefix.
unfoldable pub after_prefix : Text → Text → Option Text
after_prefix [] s = some s
after_prefix (c ∷ cs) [] = none
after_prefix (c ∷ cs) (d ∷ ds) = let rest = after_prefix cs ds in if c == d then rest else none

abbrev pub with_first : ℕ → Option (Text × Text) → Option (Text × Text)
with_first c none = none
with_first c (some (a, b)) = some (c ∷ a, b)

-- `s.find(sep)`, with what is in front of the first separator and what is behind it.
unfoldable pub cut : Text → Text → Option (Text × Text)
unfolding after_prefix
cut sep [] = none
cut sep (c ∷ cs) =
    let later = with_first c (cut sep cs) in
    elim (after_prefix sep (c ∷ cs)) [ (some rest) ↦ some ([], rest) | none ↦ later ]

unfoldable pub split_chars : Text → List Text
split_chars [] = []
split_chars (c ∷ cs) = (c ∷ []) ∷ split_chars cs

-- The loop; each turn takes off at least a separator.
unfoldable pub split_loop : ℕ → Text → Text → List Text
unfolding cut
split_loop zero s sep = []
split_loop (suc fuel) [] sep = []
split_loop (suc fuel) (c ∷ cs) sep = elim (cut sep (c ∷ cs)) [
  | none ↦ (c ∷ cs) ∷ []
  | (some (a, b)) ↦ a ∷ split_loop fuel b sep
]

unfoldable pub split_string : Text → Text → List Text
unfolding split_loop split_chars
split_string s [] = split_chars s
split_string s (c ∷ cs) = split_loop (length s) s (c ∷ cs)

after_prefix-append : (sep s rest : Text) → after_prefix sep s ≡ some rest → s ≡ sep ++ rest
unfolding after_prefix
after_prefix-append [] s rest e = cc
after_prefix-append (c ∷ cs) [] rest e = cc
after_prefix-append (c ∷ cs) (d ∷ ds) rest e = ground (arith, after_prefix-append cs ds rest)

with_first-append :
    (sep s a b : Text) (c : ℕ) (o : Option (Text × Text))
    → ((x y : Text) → o ≡ some (x, y) → s ≡ x ++ (sep ++ y))
    → with_first c o ≡ some (a, b)
    → (c ∷ s) ≡ a ++ (sep ++ b)
with_first-append sep s a b c none whole e = cc
with_first-append sep s a b c (some (x, y)) whole e = let found = whole x y refl in cc

first-append :
    (sep s a b : Text) (o : Option Text) (later : Option (Text × Text))
    → ((rest : Text) → o ≡ some rest → s ≡ sep ++ rest)
    → (later ≡ some (a, b) → s ≡ a ++ (sep ++ b))
    → elim o [ (some rest) ↦ some ([], rest) | none ↦ later ] ≡ some (a, b)
    → s ≡ a ++ (sep ++ b)
first-append sep s a b none later here there e = there e
first-append sep s a b (some rest) later here there e = let found = here rest refl in cc

cut-append : (sep s a b : Text) → cut sep s ≡ some (a, b) → s ≡ a ++ (sep ++ b)
unfolding cut
cut-append sep [] a b e = cc
cut-append sep (c ∷ cs) a b e =
    first-append sep (c ∷ cs) a b (after_prefix sep (c ∷ cs)) (with_first c (cut sep cs))
      (after_prefix-append sep (c ∷ cs))
      (with_first-append sep cs a b c (cut sep cs) (cut-append sep cs)) e

-- The parts put together are the text, but for a separator at its end.
unfoldable pub Rejoins : Text → Text → List Text → Type 0
Rejoins sep s parts = (join_vector parts sep ≡ s) ⊎ (join_vector parts sep ++ sep ≡ s)

Rejoins-part :
    (sep a b : Text) (parts : List Text)
    → ¬ (parts ≡ [])
    → Rejoins sep b parts
    → Rejoins sep (a ++ (sep ++ b)) (a ∷ parts)
unfolding Rejoins join_vector
Rejoins-part sep a b [] filled rejoined = absurd (filled refl)
Rejoins-part sep a b (p ∷ ps) filled (inl e) = inl (ap (λ t. a ++ (sep ++ t)) e)
Rejoins-part sep a b (p ∷ ps) filled (inr e) = inr (
    append_assoc a (sep ++ join_vector (p ∷ ps) sep) sep
    ∙ ap (λ t. a ++ t) (append_assoc sep (join_vector (p ∷ ps) sep) sep ∙ ap (λ t. sep ++ t) e))

split_loop-filled : (fuel c : ℕ) (cs sep : Text) → split_loop (suc fuel) (c ∷ cs) sep ≢ []
unfolding split_loop
split_loop-filled fuel c cs sep = elim (cut sep (c ∷ cs)) [
  | none ↦ λ e. absurd (grind arith)
  | (some (a, b)) ↦ λ e. absurd (grind arith)
]

Rejoins-rest :
    (fuel c : ℕ) (cs a b : Text)
    → length b ≤ fuel
    → (b ≢ [] → Rejoins (c ∷ cs) b (split_loop fuel b (c ∷ cs)))
    → Rejoins (c ∷ cs) (a ++ ((c ∷ cs) ++ b)) (a ∷ split_loop fuel b (c ∷ cs))
unfolding split_loop Rejoins join_vector
Rejoins-rest zero c cs a [] fits rest = inr (ap (λ t. a ++ t) (sym (append_nil (c ∷ cs))))
Rejoins-rest (suc fuel) c cs a [] fits rest = inr (ap (λ t. a ++ t) (sym (append_nil (c ∷ cs))))
Rejoins-rest zero c cs a (x ∷ xs) fits rest = absurd (omega arith)
Rejoins-rest (suc fuel) c cs a (x ∷ xs) fits rest =
    Rejoins-part (c ∷ cs) a (x ∷ xs) (split_loop (suc fuel) (x ∷ xs) (c ∷ cs))
      (split_loop-filled fuel x xs (c ∷ cs)) (rest (λ e. absurd (grind arith)))

shorter :
    (fuel c : ℕ) (s cs a b : Text)
    → length s ≤ suc fuel
    → s ≡ a ++ ((c ∷ cs) ++ b)
    → length b ≤ fuel
shorter fuel c s cs a b fits e =
    let lengths = ap length e ∙ length-append a ((c ∷ cs) ++ b) in
    let parts_lengths = length-append cs b in omega arith

Rejoins-cut :
    (fuel c : ℕ) (s cs : Text) (o : Option (Text × Text))
    → length s ≤ suc fuel
    → ((a b : Text) → o ≡ some (a, b) → s ≡ a ++ ((c ∷ cs) ++ b))
    → ((b : Text) → length b ≤ fuel → b ≢ [] → Rejoins (c ∷ cs) b (split_loop fuel b (c ∷ cs)))
    → Rejoins (c ∷ cs) s (elim o [ none ↦ s ∷ [] | (some (a, b)) ↦ a ∷ split_loop fuel b (c ∷ cs) ])
unfolding Rejoins join_vector
Rejoins-cut fuel c s cs none fits whole rest = inl refl
Rejoins-cut fuel c s cs (some (a, b)) fits whole rest =
    let e = whole a b refl in
    let small = shorter fuel c s cs a b fits e in
    subst (λ t. Rejoins (c ∷ cs) t (a ∷ split_loop fuel b (c ∷ cs))) (sym e)
      (Rejoins-rest fuel c cs a b small (rest b small))

split_loop-Rejoins :
    (fuel c : ℕ) (s cs : Text)
    → length s ≤ fuel
    → s ≢ []
    → Rejoins (c ∷ cs) s (split_loop fuel s (c ∷ cs))
unfolding split_loop
split_loop-Rejoins fuel c [] cs fits filled = absurd (filled refl)
split_loop-Rejoins zero c (x ∷ xs) cs fits filled = absurd (omega arith)
split_loop-Rejoins (suc fuel) c (x ∷ xs) cs fits filled =
    Rejoins-cut fuel c (x ∷ xs) cs (cut (c ∷ cs) (x ∷ xs)) fits (cut-append (c ∷ cs) (x ∷ xs))
      (λ b. split_loop-Rejoins fuel c b cs)

split_chars-join : (s : Text) → join_vector (split_chars s) [] ≡ s
unfolding join_vector split_chars
split_chars-join [] = refl
split_chars-join (c ∷ []) = refl
split_chars-join (c ∷ d ∷ s) = ap (λ t. c ∷ t) (split_chars-join (d ∷ s))

-- For every text and every separator, the empty one included, the parts that splitting gives,
-- joined with the same separator, are the text again, or the text without one separator at its end.
pub split_string-Rejoins :
    (s sep : Text)
    → (join_vector (split_string s sep) sep ≡ s) ⊎ (join_vector (split_string s sep) sep ++ sep ≡ s)
unfolding Rejoins split_string split_loop join_vector
split_string-Rejoins s [] = inl (split_chars-join s)
split_string-Rejoins [] (c ∷ cs) = inl refl
split_string-Rejoins (x ∷ xs) (c ∷ cs) =
    split_loop-Rejoins (length (x ∷ xs)) c (x ∷ xs) cs (omega arith) (λ e. absurd (grind arith))
