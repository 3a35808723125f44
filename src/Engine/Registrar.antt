-- ===== src/Engine/Registrar.antt =====
-- The prefixes of the names of triggers and signals: engine/src/registrar.hpp. A text is a list of
-- its code units.
use cloe.Prelude.{
  ℕ, ◌≡◌, ◌≢◌, ap, sym, ◌∙◌, Option-cases, inl, inr, Bool, true, false, Option, none, some, [], ◌∷◌,
  ◌++◌, ◌==◌, if◌then◌else◌, arith,
}
use cloe.Prelude.Texts.{Text, eq_text, eq_text-eq, eq_text_refl}

pub record Registrar : Type 0 where
  pub trigger_prefix : Text

abbrev pub is_empty : Text → Bool
is_empty [] = true
is_empty (c ∷ cs) = false

-- The constructor from another registrar, with what is put behind its prefix.
unfoldable pub extend : Registrar → Text → Registrar
extend ar prefix =
    if is_empty prefix
    then record { trigger_prefix = ar.trigger_prefix }
    else record { trigger_prefix = ar.trigger_prefix ++ prefix }

-- `none` is the assertion. 95 is the underscore.
unfoldable pub with_trigger_prefix : Text → Registrar → Option Registrar
unfolding extend
with_trigger_prefix [] r = none
with_trigger_prefix (c ∷ cs) r = if c == 95 then none else some (extend r (c ∷ cs))

unfoldable pub make_prefix : Text → Text → Registrar → Option Text
make_prefix name delim r =
    if is_empty name
    then none
    else if is_empty r.trigger_prefix
    then some name
    else if eq_text name (95 ∷ [])
    then some r.trigger_prefix
    else some (r.trigger_prefix ++ (delim ++ name))

-- Both delimiters are the slash.
unfoldable pub make_trigger_name : Text → Registrar → Option Text
unfolding make_prefix
make_trigger_name name r = make_prefix name (47 ∷ []) r

unfoldable pub make_signal_name : Text → Registrar → Option Text
unfolding make_prefix
make_signal_name name r = make_prefix name (47 ∷ []) r

append-cancel : (a b c : Text) → a ++ b ≡ a ++ c → b ≡ c
append-cancel [] b c e = e
append-cancel (x ∷ xs) b c e = append-cancel xs b c (cc)

longer : (a b : Text) (c : ℕ) → a ≢ a ++ c ∷ b
longer [] b c e = cc
longer (x ∷ xs) b c e = longer xs b c (cc)

injective :
    (r : Registrar) (a b t : Text)
    → make_trigger_name a r ≡ some t
    → make_trigger_name b r ≡ some t
    → a ≡ b
unfolding make_trigger_name make_prefix
injective r a b t e f = ground (
  arith,
  append-cancel r.trigger_prefix (47 ∷ a) (47 ∷ b),
  longer r.trigger_prefix a 47,
  longer r.trigger_prefix b 47,
  eq_text-eq a (95 ∷ []),
  eq_text-eq b (95 ∷ []),
)

named :
    (r : Registrar) (a : Text) → is_empty a ≡ false → (t : Text) × (make_trigger_name a r ≡ some t)
unfolding make_trigger_name make_prefix
named r a e = elim (Option-cases (make_trigger_name a r)) [
  | (inl n) ↦ absurd (ground (arith, n))
  | (inr p) ↦ p
]

-- Under one registrar, two names that differ and are not empty give two trigger names that differ,
-- also where one of them is the underscore, which stands for the prefix alone.
pub make_trigger_name-differ :
    (r : Registrar) (a b : Text)
    → is_empty a ≡ false
    → eq_text a b ≡ false
    → make_trigger_name a r ≢ make_trigger_name b r
make_trigger_name-differ r a b full differ e =
    let (t, n) = named r a full in
    let same = injective r a b t n (sym e ∙ n) in
    ground (arith, ap (λ z. eq_text a z) same, eq_text_refl a, differ)
