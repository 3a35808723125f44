-- ===== src/Oak/Examples.antt =====
-- Examples of the properties of the route muxer, with paths that have no dots.
use cloe.Prelude.{
  ℕ, suc, ◌<◌, ◌≡◌, refl, Bool, true, false, ◌||◌, none, some, [], ◌∷◌, length, ◌==◌, if◌then◌else◌,
  arith,
}
use cloe.Prelude.Texts.{Text, eq_text, find_text}
use cloe.Oak.Muxer.{
  Filesystem, IsPosix, Muxer, root, starts_with_slash, one_slash, before_query, normalize, trim_end,
  or_root, resolve, climb, get,
}
use cloe.Oak.Climb.{Nearest, resolve-Nearest, resolve-endless}

abbrev has_slash : Text → Bool
has_slash [] = false
has_slash (c ∷ cs) = c == 47 || has_slash cs

abbrev before_last : Text → Text
before_last [] = []
before_last (c ∷ cs) = let rest = before_last cs in if has_slash cs then c ∷ rest else []

abbrev parent : Text → Text
parent [] = []
parent (c ∷ cs) = c ∷ before_last cs

abbrev skip_slashes : Text → Text
skip_slashes [] = []
skip_slashes (c ∷ cs) = let rest = skip_slashes cs in if c == 47 then rest else c ∷ cs

abbrev normal_form : Text → Text
normal_form [] = []
normal_form (c ∷ cs) = c ∷ skip_slashes cs

abbrev plain : Filesystem
plain = record {
  is_absolute = starts_with_slash;
  lexically_normal = normal_form;
  parent_path = parent;
}

skip_slashes-one_slash : (cs : Text) → one_slash (47 ∷ skip_slashes cs) ≡ true
skip_slashes-one_slash [] = refl
skip_slashes-one_slash (c ∷ cs) = ground (arith, skip_slashes-one_slash cs)

before_last-length : (c : ℕ) (cs : Text) → length (before_last (c ∷ cs)) < length (c ∷ cs)
before_last-length c [] = ground arith
before_last-length c (d ∷ ds) = ground (arith, before_last-length d ds)

plain-IsPosix : IsPosix plain
unfolding eq_text
plain-IsPosix = record {
  absolute = λ p. refl;
  normal = normal;
  above = above;
  shrinks = shrinks;
  empty_parent = refl;
}
  where
    normal : (p : Text) → starts_with_slash p ≡ true → one_slash (normal_form p) ≡ true
    normal [] e = ground arith
    normal (c ∷ cs) e = ground (arith, skip_slashes-one_slash cs)

    above : (p : Text) → one_slash p ≡ true → one_slash (parent p) ≡ true
    above [] e = ground arith
    above (c ∷ []) e = ground arith
    above (c ∷ d ∷ ds) e = ground arith

    shrinks :
        (p : Text) → one_slash p ≡ true → eq_text p root ≡ false → length (parent p) < length p
    shrinks [] e n = ground arith
    shrinks (c ∷ []) e n = ground arith
    shrinks (c ∷ d ∷ ds) e n = ground (arith, before_last-length d ds)

-- The route `/a` has a value, and `/a/b?c` is asked for.
abbrev only_a : Muxer ℕ
only_a = record { backtrack = true; routes = ((47 ∷ 97 ∷ []), 5) ∷ [] }

abbrev below_a : Text
below_a = 47 ∷ 97 ∷ 47 ∷ 98 ∷ 63 ∷ 99 ∷ []

below_a_found : get plain 9 below_a only_a ≡ some (some 5)
unfolding get resolve normalize before_query trim_end or_root climb find_text eq_text
below_a_found = refl

resolve-Nearest_example :
    (r : Text) × (resolve plain (suc (length (normalize plain below_a))) below_a only_a ≡ some r)
    × Nearest plain only_a (normalize plain below_a) r
unfolding before_query
resolve-Nearest_example = resolve-Nearest plain below_a only_a plain-IsPosix refl refl

-- `a`, without a slash.
resolve-endless_example : resolve plain 100 (97 ∷ []) only_a ≡ none
unfolding before_query find_text eq_text
resolve-endless_example = resolve-endless plain 100 (97 ∷ []) only_a plain-IsPosix refl refl refl
