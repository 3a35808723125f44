-- ===== src/Fable/Examples.antt =====
-- Examples of the interpolation of variables.
use cloe.Prelude.{◌≡◌, ◌⊎◌, refl, false, none, List, [], ◌∷◌, ◌++◌}
use cloe.Prelude.Texts.{eq_text, find_text}
use cloe.Fable.Environment.{
  Environment, returned, interpolate, evaluate, scan, slice, take, drop, append_slice, and_return,
  special, after_dollar, find_dash, further, raw_key, alternative, get, or_else,
}
use cloe.Fable.Templates.{
  Piece, literal, variable, variable_or, render, meaning, is_fit, is_plain, is_undashed,
}
use cloe.Fable.Meaning.{interpolate-render}
use cloe.Fable.Strings.{
  split_string, join_vector, split_loop, cut, after_prefix, split_string-Rejoins,
}

-- `A` is defined as `xy`.
abbrev one_define : Environment
one_define = record { getenv = λ key. none; defines = ((65 ∷ []), (120 ∷ 121 ∷ [])) ∷ [] }

-- `5$ ${A}${B-c}`
abbrev greeting : List Piece
greeting = literal (53 ∷ 36 ∷ 32 ∷ []) ∷ variable (65 ∷ []) ∷ variable_or (66 ∷ []) (99 ∷ []) ∷ []

interpolate-render_example :
    interpolate 2 false false one_define (render greeting) ≡ meaning false false one_define greeting
unfolding is_fit is_plain is_undashed
interpolate-render_example = interpolate-render 0 false false one_define greeting refl

-- `5,,7,`, split at each comma.
splits : split_string (53 ∷ 44 ∷ 44 ∷ 55 ∷ 44 ∷ []) (44 ∷ []) ≡ (53 ∷ []) ∷ [] ∷ (55 ∷ []) ∷ []
unfolding split_string split_loop cut after_prefix
splits = refl

split_string-Rejoins_example :
    (join_vector (split_string (53 ∷ 44 ∷ 55 ∷ 44 ∷ []) (44 ∷ [])) (44 ∷ [])
      ≡ 53 ∷ 44 ∷ 55 ∷ 44 ∷ [])
    ⊎ (join_vector (split_string (53 ∷ 44 ∷ 55 ∷ 44 ∷ []) (44 ∷ [])) (44 ∷ []) ++ (44 ∷ [])
        ≡ 53 ∷ 44 ∷ 55 ∷ 44 ∷ [])
split_string-Rejoins_example = split_string-Rejoins (53 ∷ 44 ∷ 55 ∷ 44 ∷ []) (44 ∷ [])

-- An escaped dollar between the braces: of `${$$}A` the variable `A` behind the brace is taken, and
-- the brace that opens is put out.
escaped_in_braces :
    interpolate 4 false false one_define (36 ∷ 123 ∷ 36 ∷ 36 ∷ 125 ∷ 65 ∷ [])
    ≡ returned (36 ∷ 123 ∷ 120 ∷ 121 ∷ 65 ∷ [])
unfolding interpolate evaluate scan slice take drop append_slice and_return special after_dollar
    find_dash further raw_key alternative get or_else find_text eq_text
escaped_in_braces = refl
