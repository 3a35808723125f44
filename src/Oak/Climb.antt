-- ===== src/Oak/Climb.antt =====
-- That the muxer finds the nearest route: oak/include/oak/route_muxer.hpp.
use cloe.Prelude.{
  ℕ, zero, suc, ◌<◌, ◌≡◌, inl, inr, refl, subst, sym, true, false, none, some, [], ◌∷◌, length,
  arith, Bool-cases,
}
use cloe.Prelude.Texts.{Text, eq_text, eq_text-eq}
use cloe.Oak.Muxer.{
  Filesystem, IsPosix, Muxer, root, one_slash, before_query, trim_end, or_root, normalize,
  registered, climb, resolve,
}

trim_end-one_slash : (s : Text) → one_slash s ≡ true → one_slash (or_root (trim_end s)) ≡ true
unfolding trim_end or_root
trim_end-one_slash [] e = ground arith
trim_end-one_slash (c ∷ []) e = ground arith
trim_end-one_slash (c ∷ d ∷ ds) e = ground arith

normalize-one_slash :
    (fs : Filesystem) (route : Text)
    → IsPosix fs
    → fs.is_absolute (before_query route) ≡ true
    → one_slash (normalize fs route) ≡ true
unfolding normalize
normalize-one_slash fs route h e = ground (
  arith,
  h.normal (before_query route) e,
  trim_end-one_slash (fs.lexically_normal (before_query route)),
)

module _ {T : Type 0} (fs : Filesystem) where
  -- The first of a path and the directories above it that has a route, or the empty text where none
  -- has.
  pub data Nearest (m : Muxer T) : Text → Text → Type 0 where
    here : (p : Text) → registered fs p m ≡ true → Nearest m p p
    nowhere : registered fs root m ≡ false → Nearest m root []
    above :
        (p r : Text)
        → registered fs p m ≡ false
        → eq_text p root ≡ false
        → Nearest m (fs.parent_path p) r
        → Nearest m p r

  climb-Nearest :
      (fuel : ℕ) (p : Text) (m : Muxer T)
      → IsPosix fs
      → one_slash p ≡ true
      → length p < fuel
      → (r : Text) × (climb fs fuel p m ≡ some r) × Nearest m p r
  unfolding climb
  climb-Nearest zero p m h a l = absurd (omega arith)
  climb-Nearest (suc fuel) p m h a l = elim (Bool-cases (registered fs p m)) [
    | (inl yes') ↦ (p, ground arith, here p yes')
    | (inr no') ↦ elim (Bool-cases (eq_text p root)) [
      | (inl top) ↦ (
        [],
        ground arith,
        subst (λ q. Nearest m q []) (sym (eq_text-eq p root top))
            (nowhere (subst (λ q. registered fs q m ≡ false) (eq_text-eq p root top) no')),
      )
      | (inr below) ↦
          (let (r, e, n) =
              climb-Nearest fuel (fs.parent_path p) m h (h.above p a)
                (omega (arith, h.shrinks p a below, l)) in
            (r, ground arith, above p r no' below n))
    ]
  ]

  -- With the paths of POSIX and with backtracking, an absolute route resolves to the nearest
  -- registered one, after at most as many rounds of the loop as the normal form has characters,
  -- and one more.
  pub resolve-Nearest :
      (route : Text) (m : Muxer T)
      → IsPosix fs
      → m.backtrack ≡ true
      → fs.is_absolute (before_query route) ≡ true
      → (r : Text) × (resolve fs (suc (length (normalize fs route))) route m ≡ some r)
        × Nearest m (normalize fs route) r
  unfolding resolve
  resolve-Nearest route m h b a =
      let (r, e, n) =
        climb-Nearest (suc (length (normalize fs route))) (normalize fs route) m h
          (normalize-one_slash fs route h a) (omega arith) in
      (r, ground arith, n)

  climb-empty :
      (fuel : ℕ) (m : Muxer T) → IsPosix fs → registered fs [] m ≡ false → climb fs fuel [] m ≡ none
  unfolding climb eq_text
  climb-empty zero m h e = refl
  climb-empty (suc fuel) m h e = ground (arith, h.empty_parent, climb-empty fuel m h e)

  -- With the paths of POSIX, with backtracking and with no default, a route that is not absolute
  -- is looked for without end.
  pub resolve-endless :
      (fuel : ℕ) (route : Text) (m : Muxer T)
      → IsPosix fs
      → m.backtrack ≡ true
      → registered fs [] m ≡ false
      → fs.is_absolute (before_query route) ≡ false
      → resolve fs fuel route m ≡ none
  unfolding resolve normalize
  resolve-endless fuel route m h b e a = ground (arith, climb-empty fuel m h e)
