-- ===== src/Fable/Json.antt =====
-- JSON values and the types of them: fable/include/fable/json.hpp and fable/src/fable/json.cpp,
-- over the JSON library, whose values are data here. The members of an object come in the order in
-- which the library walks them. A floating-point number is counted in thousandths.
use cloe.Prelude.{ℕ, ◌≡◌, refl, ap, Bool, true, false, List, [], ◌∷◌, is_some, length}
use cloe.Prelude.Int.{ℤ}
use cloe.Prelude.Texts.{Text, find_text}

pub data JsonType : Type 0 where
  null object array string boolean number_integer number_unsigned number_float : JsonType

mutual
  pub data Json : Type 0 where
    null : Json
    boolean : Bool → Json
    number_unsigned : ℕ → Json
    number_integer : ℤ → Json
    number_float : ℤ → Json
    string : Text → Json
    array : Items → Json
    object : Members → Json

  pub data Items : Type 0 where
    no_items : Items
    item : Json → Items → Items

  pub data Members : Type 0 where
    no_members : Members
    member : Text → Json → Members → Members

-- `type()`.
unfoldable pub type_of : Json → JsonType
type_of Json.null = JsonType.null
type_of (Json.boolean b) = JsonType.boolean
type_of (Json.number_unsigned n) = JsonType.number_unsigned
type_of (Json.number_integer i) = JsonType.number_integer
type_of (Json.number_float f) = JsonType.number_float
type_of (Json.string s) = JsonType.string
type_of (Json.array xs) = JsonType.array
type_of (Json.object ms) = JsonType.object

-- The same type.
unfoldable pub same : JsonType → JsonType → Bool
same JsonType.null JsonType.null = true
same JsonType.object JsonType.object = true
same JsonType.array JsonType.array = true
same JsonType.string JsonType.string = true
same JsonType.boolean JsonType.boolean = true
same JsonType.number_integer JsonType.number_integer = true
same JsonType.number_unsigned JsonType.number_unsigned = true
same JsonType.number_float JsonType.number_float = true
same a b = false

-- The names that types have in a JSON schema.
pub data TypeName : Type 0 where
  null object array boolean number integer string : TypeName

unfoldable pub to_string : JsonType → TypeName
to_string JsonType.null = TypeName.null
to_string JsonType.object = TypeName.object
to_string JsonType.array = TypeName.array
to_string JsonType.boolean = TypeName.boolean
to_string JsonType.number_float = TypeName.number
to_string JsonType.number_integer = TypeName.integer
to_string JsonType.number_unsigned = TypeName.integer
to_string JsonType.string = TypeName.string

unfoldable pub elements_of : Items → List Json
elements_of no_items = []
elements_of (item x xs) = x ∷ elements_of xs

unfoldable pub members_of : Members → List (Text × Json)
members_of no_members = []
members_of (member k x ms) = (k, x) ∷ members_of ms

unfoldable pub to_items : List Json → Items
to_items [] = no_items
to_items (x ∷ xs) = item x (to_items xs)

unfoldable pub to_members : List (Text × Json) → Members
to_members [] = no_members
to_members ((k, x) ∷ ms) = member k x (to_members ms)

-- What a walk over an array meets; there is nothing in a value of another type.
unfoldable pub elements : Json → List Json
unfolding elements_of
elements (Json.array xs) = elements_of xs
elements _ = []

-- `items()`.
unfoldable pub items : Json → List (Text × Json)
unfolding members_of
items (Json.object ms) = members_of ms
items _ = []

-- `size()`.
unfoldable pub size : Json → ℕ
unfolding elements items
size Json.null = 0
size (Json.array xs) = length (elements (Json.array xs))
size (Json.object ms) = length (items (Json.object ms))
size _ = 1

-- `contains`, of a key.
unfoldable pub has : Json → Text → Bool
unfolding items
has c key = is_some (find_text key (items c))

pub elements-to_items : (xs : List Json) → elements (Json.array (to_items xs)) ≡ xs
unfolding elements to_items
elements-to_items [] = refl
elements-to_items (x ∷ xs) = ap (λ l. x ∷ l) (elements-to_items xs)

pub items-to_members : (ms : List (Text × Json)) → items (Json.object (to_members ms)) ≡ ms
unfolding items to_members
items-to_members [] = refl
items-to_members ((k, x) ∷ ms) = ap (λ l. (k, x) ∷ l) (items-to_members ms)
