-- ===== src/Fable/Schema/Accepts.antt =====
-- What a schema in JSON means, by its keywords: the reference for `validate`, apart from the code.
-- The keywords that are written with the whitelist and the blacklist of a number, which JSON
-- schemas do not know, are left out, and so are the patterns of texts and names.
use cloe.Prelude.{
  ℕ, ◌+◌, ◌-◌, ◌*◌, ◌/◌, ◌%◌, ◌||◌, ◌≡◌, ◌⊎◌, Bool, true, false, Option, none, some, List, [], ◌∷◌,
  ◌&&◌, not, if◌then◌else◌, length, ltb, ◌==◌,
}
use cloe.Prelude.Int.{ℤ, pos, negsuc, ltb_int, leb_int}
use cloe.Prelude.Texts.{Text, eq_text}
use cloe.Fable.Json.{
  Json, TypeName, items, elements, has, Items, no_items, item, Members, no_members, member,
}
use cloe.Fable.Schema.Casts.{uint64, int64, in_range}
use cloe.Fable.Schema.Interface.{
  Document, anything, nothing, of_type, number_within, text_within, constant, array_of, numbered,
  object_of, Schema, Verdict, returned, thrown, Exception, Reason, one_of, any_of, Documents,
  no_documents, document, Properties, no_properties, property,
}
use cloe.Fable.Schema.Scalars.{is_among, is_empty}

-- A number, in thousandths, without a fractional part.
unfoldable pub is_whole : ℤ → Bool
is_whole (pos n) = n % 1000 == 0
is_whole (negsuc n) = (n + 1) % 1000 == 0

unfoldable pub has_name : TypeName → Json → Bool
unfolding is_whole
has_name TypeName.null Json.null = true
has_name TypeName.boolean (Json.boolean b) = true
has_name TypeName.integer (Json.number_unsigned n) = true
has_name TypeName.integer (Json.number_integer i) = true
has_name TypeName.integer (Json.number_float f) = is_whole f
has_name TypeName.number (Json.number_unsigned n) = true
has_name TypeName.number (Json.number_integer i) = true
has_name TypeName.number (Json.number_float f) = true
has_name TypeName.string (Json.string s) = true
has_name TypeName.array (Json.array xs) = true
has_name TypeName.object (Json.object ms) = true
has_name name c = false

-- The value in the unit of the limits.
unfoldable pub number_value : TypeName → Json → Option ℤ
unfolding is_whole
number_value TypeName.integer (Json.number_unsigned n) = some (pos n)
number_value TypeName.integer (Json.number_integer i) = some i
number_value TypeName.integer (Json.number_float (pos n)) =
    if is_whole (pos n) then some (pos (n / 1000)) else none
number_value TypeName.integer (Json.number_float (negsuc n)) =
    if is_whole (negsuc n) then some (negsuc ((n + 1) / 1000 - 1)) else none
number_value TypeName.number (Json.number_unsigned n) = some (pos (n * 1000))
number_value TypeName.number (Json.number_integer (pos n)) = some (pos (n * 1000))
number_value TypeName.number (Json.number_integer (negsuc n)) = some (negsuc (n * 1000 + 999))
number_value TypeName.number (Json.number_float f) = some f
number_value name c = none

unfoldable pub between : Bool → ℤ → Bool → ℤ → ℤ → Bool
between exclusive_min low exclusive_max high v =
    not (if exclusive_min then leb_int v low else ltb_int v low)
    && not (if exclusive_max then leb_int high v else ltb_int high v)

unfoldable pub number_in : (ℤ → Bool) → Option ℤ → Bool
number_in test none = false
number_in test (some v) = test v

unfoldable pub at_most : Option ℕ → ℕ → Bool
at_most none n = true
at_most (some m) n = not (ltb m n)

unfoldable pub text_in : (Text → Bool) → Json → Bool
text_in test (Json.string s) = test s
text_in test c = false

-- The characters of a text in UTF-8: the units that continue none.
unfoldable pub characters : Text → ℕ
characters [] = 0
characters (ch ∷ s) = (if ltb ch 128 || not (ltb ch 192) then 1 else 0) + characters s

unfoldable pub text_allowed : ℕ → Option ℕ → List Text → Text → Bool
unfolding at_most is_empty is_among characters
text_allowed low high enum s =
    not (ltb (characters s) low)
    && (at_most high (characters s) && not (not (is_empty enum) && not (is_among s enum)))

unfoldable pub all_in : (Json → Bool) → List Json → Bool
all_in test [] = true
all_in test (x ∷ xs) = test x && all_in test xs

unfoldable pub members_in : (Text → Json → Bool) → List (Text × Json) → Bool
members_in test [] = true
members_in test (kv ∷ kvs) = test kv.0 kv.1 && members_in test kvs

unfoldable pub has_all : Json → List Text → Bool
unfolding has
has_all c [] = true
has_all c (k ∷ ks) = has c k && has_all c ks

unfoldable mutual
  unfolding has_name number_in number_value between text_in text_allowed elements items at_most
      all_in members_in has_all

  pub accepts : Document → Json → Bool
  accepts anything c = true
  accepts nothing c = false
  accepts (of_type name) c = has_name name c
  accepts (number_within name exclusive_min low exclusive_max high) c =
      number_in (between exclusive_min low exclusive_max high) (number_value name c)
  accepts (text_within low high enum) c = text_in (text_allowed low high enum) c
  accepts (constant t) c = text_in (λ s. eq_text s t) c
  accepts (array_of d low high) c =
      has_name TypeName.array c
      && (not (ltb (length (elements c)) low)
          && (at_most high (length (elements c)) && all_in (accepts d) (elements c)))
  -- Its keyword `type` holds a schema, and is none.
  accepts (numbered d) c = false
  accepts (object_of ps required other low high) c =
      has_name TypeName.object c
      && (not (ltb (length (items c)) low)
          && (at_most high (length (items c))
              && (has_all c required && members_in (accepts_member ps (accepts other)) (items c))))
  accepts (one_of ds) c = accepting ds c == 1
  accepts (any_of ds) c = not (accepting ds c == 0)

  -- How many of them accept the value.
  pub accepting : Documents → Json → ℕ
  accepting no_documents c = 0
  accepting (document d ds) c = (if accepts d c then 1 else 0) + accepting ds c

  pub accepts_member : Properties → (Json → Bool) → Text → Json → Bool
  accepts_member no_properties other k x = other x
  accepts_member (property name d ps) other k x =
      if eq_text name k then accepts d x else accepts_member ps other k x

unfoldable pub is_ascii : Text → Bool
is_ascii [] = true
is_ascii (ch ∷ s) = ltb ch 128 && is_ascii s

-- The integers in a value are integers of the machine, no floating-point number is one that is an
-- integer, and the texts are of ASCII characters: there the code takes another view than JSON
-- schemas.
unfoldable mutual
  unfolding is_whole is_ascii

  pub fits : Json → Bool
  fits (Json.number_unsigned n) = in_range uint64 (pos n)
  fits (Json.number_integer i) = in_range int64 i
  fits (Json.number_float f) = not (is_whole f)
  fits (Json.string s) = is_ascii s
  fits (Json.array xs) = items_fit xs
  fits (Json.object ms) = members_fit ms
  fits _ = true

  pub items_fit : Items → Bool
  items_fit no_items = true
  items_fit (item x xs) = fits x && items_fit xs

  pub members_fit : Members → Bool
  members_fit no_members = true
  members_fit (member k x ms) = fits x && members_fit ms

-- What they say of a value, a verdict on it agrees with: if they accept it, it is true and leaves
-- the error that there was, and if not, it is false and leaves a new one, or throws, where that may
-- be.
abbrev pub Agrees : Bool → Bool → Verdict → Option Reason → Type 0
Agrees may_throw true v err = v ≡ returned true err
Agrees may_throw false v err =
    ((r : Reason) × (v ≡ returned false (some r)))
    ⊎ ((may_throw ≡ true) × (e : Exception) × (v ≡ thrown e))

-- A schema that validates just what its document accepts.
abbrev pub Judges : Bool → Schema → Type 0
Judges may_throw s =
    (c : Json) (err : Option Reason)
    → fits c ≡ true
    → Agrees may_throw (accepts s.json_schema c) (s.validate c err) err
