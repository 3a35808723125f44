-- ===== src/Fable/Schema/Values.antt =====
-- What prototypes write and read: `serialize` and `deserialize` of fable/include/fable/schema and
-- fable/src/fable/schema.
use cloe.Prelude.{
  ℕ, zero, suc, length, ltb, Bool, false, Option, none, some, List, [], ◌∷◌, not, if◌then◌else◌,
  map, ◌==◌,
}
use cloe.Prelude.Int.{ℤ, pos, negsuc}
use cloe.Prelude.Texts.{Text, eq_text}
use cloe.Fable.Json.{Json, items, elements, to_items, to_members}
use cloe.Fable.Environment
use cloe.Fable.Schema.Interface.{
  wrong_type, not_enumerated, bad_index, too_few, too_many, Exception, conf_error, schema_error,
  logic_error, Schema, validate_or_throw,
}
use cloe.Fable.Schema.Casts.{Machine, cast}
use cloe.Fable.Schema.Number.{Number, number_schema}
use cloe.Fable.Schema.Scalars.{boolean_schema, String, string_schema, enum_schema, const_schema}
use cloe.Fable.Schema.Containers.{
  optional_schema, Vector, vector_schema, Array, array_schema, parse_index, MapSchema, map_schema,
}

pub data Result {ℓ} (T : Type ℓ) : Type ℓ where
  ok : T → Result T
  thrown : Exception → Result T

infixl 5 ◌>>=◌
abbrev pub ◌>>=◌ {ℓ κ} : {A : Type ℓ} {B : Type κ} → Result A → (A → Result B) → Result B
ok a >>= f = f a
thrown e >>= f = thrown e

pub record Prototype (T : Type 0) : Type 0 where
  pub schema : Schema
  pub serialize : T → Json
  pub deserialize : Json → Result T

-- boolean.cpp
unfoldable pub read_boolean : Json → Result Bool
read_boolean (Json.boolean b) = ok b
read_boolean c = thrown (conf_error wrong_type)

unfoldable pub boolean_prototype : Prototype Bool
unfolding read_boolean
boolean_prototype = record {
  schema = boolean_schema false;
  serialize = λ x. Json.boolean x;
  deserialize = read_boolean;
}

-- number_impl.hpp, of an integer type. What `get` makes of a value that is no integer is an
-- argument.
unfoldable pub write_integer : Machine → ℤ → Json
write_integer t (pos n) =
    if t.is_signed then Json.number_integer (pos n) else Json.number_unsigned n
write_integer t (negsuc n) = Json.number_integer (negsuc n)

unfoldable pub read_integer : (Json → Result ℤ) → Machine → Json → Result ℤ
unfolding cast
read_integer other t (Json.number_unsigned n) = ok (cast t (pos n))
read_integer other t (Json.number_integer i) = ok (cast t i)
read_integer other t c = other c

unfoldable pub integer_prototype : (Json → Result ℤ) → Machine → Number → Prototype ℤ
unfolding write_integer read_integer
integer_prototype other t n = record {
  schema = number_schema n;
  serialize = write_integer t;
  deserialize = read_integer other t;
}

-- string.cpp; the exceptions of the interpolation are no errors of the configuration.
unfoldable pub read_string : String → Json → Result Text
read_string s (Json.string src) =
    if s.interpolate
    then elim (s.interpolate_vars src) [
      | (Environment.returned src') ↦ ok src'
      | (Environment.thrown e) ↦ thrown logic_error
    ]
    else ok src
read_string s c = thrown (conf_error wrong_type)

unfoldable pub string_prototype : String → Prototype Text
unfolding read_string
string_prototype s = record {
  schema = string_schema s;
  serialize = λ x. Json.string x;
  deserialize = read_string s;
}

-- enum.hpp, with the two maps of the enumeration.
unfoldable pub read_enum : {T : Type 0} → (Text → Option T) → Json → Result T
read_enum mapping_from (Json.string s) = elim (mapping_from s) [
  | none ↦ thrown (schema_error not_enumerated)
  | (some x) ↦ ok x
]
read_enum mapping_from c = thrown (conf_error wrong_type)

unfoldable pub enum_prototype :
    {T : Type 0} → List Text → (T → Text) → (Text → Option T) → Prototype T
unfolding read_enum
enum_prototype keys mapping_to mapping_from = record {
  schema = enum_schema false keys;
  serialize = λ x. Json.string (mapping_to x);
  deserialize = read_enum mapping_from;
}

-- const.hpp
unfoldable pub read_const : Text → Json → Result Text
unfolding const_schema validate_or_throw
read_const t c = elim (validate_or_throw (const_schema false t) c) [
  | none ↦ ok t
  | (some e) ↦ thrown e
]

unfoldable pub const_prototype : Text → Prototype Text
unfolding read_const
const_prototype t = record {
  schema = const_schema false t;
  serialize = λ x. Json.string x;
  deserialize = read_const t;
}

unfoldable pub index_or_throw : Array → Text → Result ℕ
unfolding parse_index
index_or_throw a key = elim (parse_index a.count key) [
  | none ↦ thrown (schema_error bad_index)
  | (some i) ↦ ok i
]

-- optional.hpp
module _ {T : Type 0} where
  unfoldable pub write_optional : Prototype T → Option T → Json
  write_optional p none = Json.null
  write_optional p (some x) = p.serialize x

  unfoldable pub read_optional : Prototype T → Json → Result (Option T)
  read_optional p Json.null = ok none
  read_optional p c = p.deserialize c >>= λ x. ok (some x)

  unfoldable pub optional_prototype : Prototype T → Prototype (Option T)
  unfolding write_optional read_optional
  optional_prototype p = record {
    schema = optional_schema false p.schema;
    serialize = write_optional p;
    deserialize = read_optional p;
  }

  -- vector.hpp
  unfoldable pub read_each : Prototype T → List Json → Result (List T)
  read_each p [] = ok []
  read_each p (c ∷ cs) = p.deserialize c >>= λ x. read_each p cs >>= λ xs. ok (x ∷ xs)

  -- `to_array` throws where there is no array.
  unfoldable pub read_vector : Prototype T → Json → Result (List T)
  unfolding read_each elements
  read_vector p (Json.array xs) = read_each p (elements (Json.array xs))
  read_vector p c = thrown (conf_error wrong_type)

  unfoldable pub write_vector : Prototype T → List T → Json
  unfolding to_items
  write_vector p xs = Json.array (to_items (map p.serialize xs))

  unfoldable pub vector_prototype : Vector → Prototype T → Prototype (List T)
  unfolding write_vector read_vector
  vector_prototype v p = record {
    schema = vector_schema (record v { prototype = p.schema });
    serialize = write_vector p;
    deserialize = read_vector p;
  }

  -- map.hpp; the JSON value that is written to is null at first, and `insert` keeps an entry.
  unfoldable pub write_entries : Prototype T → List (Text × T) → List (Text × Json)
  write_entries p [] = []
  write_entries p (kv ∷ kvs) = (kv.0, p.serialize kv.1) ∷ write_entries p kvs

  unfoldable pub write_map : Prototype T → List (Text × T) → Json
  unfolding write_entries to_members
  write_map p [] = Json.null
  write_map p (kv ∷ kvs) = Json.object (to_members (write_entries p (kv ∷ kvs)))

  unfoldable pub insert_entry : Text → T → List (Text × T) → List (Text × T)
  insert_entry k x [] = (k, x) ∷ []
  insert_entry k x (kv ∷ kvs) = if eq_text kv.0 k then kv ∷ kvs else kv ∷ insert_entry k x kvs

  unfoldable pub read_entries :
      Prototype T → List (Text × Json) → List (Text × T) → Result (List (Text × T))
  unfolding insert_entry
  read_entries p [] read = ok read
  read_entries p (kv ∷ kvs) read =
      p.deserialize kv.1 >>= λ x. read_entries p kvs (insert_entry kv.0 x read)

  unfoldable pub map_prototype : MapSchema → Prototype T → Prototype (List (Text × T))
  unfolding write_map read_entries items
  map_prototype m p = record {
    schema = map_schema (record m { prototype = p.schema });
    serialize = write_map p;
    deserialize = λ c. read_entries p (items c) [];
  }

  -- array.hpp; an array is a list as long as it.
  unfoldable pub read_array : Array → Prototype T → Json → Result (List T)
  unfolding read_each elements
  read_array a p c =
      let n = length (elements c) in
      if not (n == a.count)
      then thrown (schema_error (if ltb n a.count then too_few else too_many))
      else read_each p (elements c)

  unfoldable pub set : List T → ℕ → T → List T
  set [] i x = []
  set (y ∷ ys) zero x = x ∷ ys
  set (y ∷ ys) (suc i) x = y ∷ set ys i x

  unfoldable pub read_indices : Array → Prototype T → List (Text × Json) → List T → Result (List T)
  unfolding index_or_throw set
  read_indices a p [] old = ok old
  read_indices a p (kv ∷ kvs) old =
      index_or_throw a kv.0 >>= λ i. p.deserialize kv.1 >>= λ x. read_indices a p kvs (set old i x)

  -- `deserialize_into`, on an array.
  unfoldable pub array_into : Array → Prototype T → Json → List T → Result (List T)
  unfolding read_array read_indices
  array_into a p (Json.array xs) old = read_array a p (Json.array xs)
  array_into a p (Json.object ms) old = read_indices a p (items (Json.object ms)) old
  array_into a p c old = thrown (schema_error wrong_type)

  -- An array that is set all at once, with what a new array holds.
  unfoldable pub array_prototype : Array → List T → Prototype T → Prototype (List T)
  unfolding array_into write_vector
  array_prototype a fresh p = record {
    schema = array_schema (record a { prototype = p.schema });
    serialize = write_vector p;
    deserialize = λ c. array_into a p c fresh;
  }
