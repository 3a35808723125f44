-- ===== src/Oak/Muxer.antt =====
-- The route muxer: oak/include/oak/route_muxer.hpp. A text is a list of its code units, and the
-- paths of the standard library are an argument.
use cloe.Prelude.{
  ℕ, zero, suc, ◌<◌, ◌≡◌, Bool, true, false, not, ◌&&◌, ◌||◌, Option, none, some, List, [], ◌∷◌,
  length, ◌==◌, leb, if◌then◌else◌, is_some,
}
use cloe.Prelude.Texts.{Text, eq_text, find_text, put_text}

-- `std::filesystem::path`: the functions that the muxer uses.
pub record Filesystem : Type 0 where
  pub is_absolute : Text → Bool
  pub lexically_normal : Text → Text
  pub parent_path : Text → Text

-- 47 is the slash, 63 the question mark.
abbrev pub root : Text
root = 47 ∷ []

abbrev pub starts_with_slash : Text → Bool
starts_with_slash [] = false
starts_with_slash (c ∷ cs) = c == 47

-- One slash, and then no other.
abbrev pub one_slash : Text → Bool
one_slash [] = false
one_slash (c ∷ []) = c == 47
one_slash (c ∷ d ∷ ds) = c == 47 && not (d == 47)

-- What is documented of them, for POSIX: a path is absolute if and only if it begins with a slash;
-- the normal form of such a path begins with one slash, and so do the directories above it; these
-- are shorter, but for the root; and the empty path is its own parent.
pub record IsPosix (fs : Filesystem) : Type 0 where
  pub absolute : (p : Text) → fs.is_absolute p ≡ starts_with_slash p
  pub normal : (p : Text) → fs.is_absolute p ≡ true → one_slash (fs.lexically_normal p) ≡ true
  pub above : (p : Text) → one_slash p ≡ true → one_slash (fs.parent_path p) ≡ true
  pub shrinks :
      (p : Text)
      → one_slash p ≡ true
      → eq_text p root ≡ false
      → length (fs.parent_path p) < length p
  pub empty_parent : fs.parent_path [] ≡ []

pub record Muxer (T : Type 0) : Type 0 where
  pub backtrack : Bool
  pub routes : List (Text × T)

-- `route.substr(0, route.find("?"))`
unfoldable pub before_query : Text → Text
before_query [] = []
before_query (c ∷ cs) = let rest = before_query cs in if c == 63 then [] else c ∷ rest

-- One of the slash, the dot, the space, the newline, the tab and the carriage return.
abbrev pub is_trimmed : ℕ → Bool
is_trimmed c = c == 47 || c == 46 || c == 32 || c == 10 || c == 9 || c == 13

-- `s.substr(0, s.find_last_not_of("/. \n\t\r") + 1)`
unfoldable pub trim_end : Text → Text
trim_end [] = []
trim_end (c ∷ cs) = elim (trim_end cs) [
  | [] ↦ if is_trimmed c then [] else c ∷ []
  | (d ∷ ds) ↦ c ∷ d ∷ ds
]

unfoldable pub or_root : Text → Text
or_root [] = root
or_root (c ∷ cs) = c ∷ cs

-- Letters and digits, and one of `-_.`
abbrev pub is_legal : ℕ → Bool
is_legal c =
    (leb 48 c && leb c 57)
    || (leb 65 c && leb c 90)
    || (leb 97 c && leb c 122)
    || c == 95
    || c == 45
    || c == 46

unfoldable pub is_identifier : Text → Bool
is_identifier [] = true
is_identifier (c ∷ cs) = is_legal c && is_identifier cs

module _ (fs : Filesystem) where
  unfoldable pub normalize : Text → Text
  unfolding before_query trim_end or_root
  normalize route =
      let s = before_query route in
      if not (fs.is_absolute s) then [] else or_root (trim_end (fs.lexically_normal s))

module _ {T : Type 0} (fs : Filesystem) where
  abbrev pub registered : Text → Muxer T → Bool
  registered key m = is_some (find_text key m.routes)

  -- The loop of `resolve`; `none` is its end of fuel.
  unfoldable pub climb : ℕ → Text → Muxer T → Option Text
  climb zero p m = none
  climb (suc fuel) p m =
      let up = climb fuel (fs.parent_path p) m in
      if registered p m then some p else if eq_text p root then some [] else up

  unfoldable pub resolve : ℕ → Text → Muxer T → Option Text
  unfolding normalize climb
  resolve fuel route m =
      let key = normalize fs route in
      if not m.backtrack then (if registered key m then some key else some []) else climb fuel key m

  unfoldable pub set_backtrack : Bool → Muxer T → Muxer T
  set_backtrack enabled m = record m { backtrack = enabled }

  unfoldable pub set_default : T → Muxer T → Muxer T
  set_default def m = record m { routes = put_text [] def m.routes }

  unfoldable pub has : Text → Muxer T → Bool
  unfolding normalize
  has route m = registered (normalize fs route) m

  -- `none` is the `runtime_error`.
  unfoldable pub add : Text → T → Muxer T → Option (Muxer T)
  unfolding normalize
  add route val m =
      let key = normalize fs route in
      if registered key m then none else some (record m { routes = put_text key val m.routes })

  unfoldable pub set : Text → T → Muxer T → Muxer T
  unfolding normalize
  set route val m = record m { routes = put_text (normalize fs route) val m.routes }

  -- The first `none` is the end of fuel, the second the `out_of_range`.
  unfoldable pub get : ℕ → Text → Muxer T → Option (Option T)
  unfolding resolve
  get fuel route m = elim (resolve fuel route m) [
    | none ↦ none
    | (some key) ↦ some (find_text key m.routes)
  ]
