-- ===== src/Fable/Schema/Factory.antt =====
-- Factories: fable/include/fable/schema/factory.hpp. What a factory makes is a type of its own; a
-- schema that is given to it is a struct, or one of another class, which cannot be cast to a
-- struct.
use cloe.Prelude.{
  ◌≡◌, refl, ap, Bool, true, false, Option, none, some, List, [], ◌∷◌, not, if◌then◌else◌, is_some,
  arith,
}
use cloe.Prelude.Texts.{Text, find_text, eq_text}
use cloe.Fable.Json.{Json, items, to_members}
use cloe.Fable.Schema.Interface.{
  Reason, wrong_type, missing_property, unknown_factory, conf_error, schema_error, Verdict, Schema,
  set_error,
}
use cloe.Fable.Schema.Scalars.{const_schema, is_empty}
use cloe.Fable.Schema.Composed.{
  Struct, struct_schema, set_property, set_properties, Variant, validate_variant,
}
use cloe.Fable.Schema.Values.{Result, ok}

pub data Boxed : Type 0 where
  a_struct : Struct → Boxed
  another : Schema → Boxed

unfoldable pub schema_of : Boxed → Schema
schema_of (a_struct s) = struct_schema s
schema_of (another s) = s

pub record TypeFactory (T : Type 0) : Type 0 where
  pub schema : Boxed
  pub func : Json → Result T

pub record Factory (T : Type 0) : Type 0 where
  pub schema : Option Variant
  pub transform_func : Option (Struct → Schema)
  pub available : List (Text × TypeFactory T)
  pub factory_key : Text
  pub args_key : Text
  pub args_subset : Bool

abbrev empty_struct : Struct
empty_struct = record {
  is_required = false;
  properties = [];
  properties_required = [];
  additional_properties = false;
  additional_prototype = none;
}

-- `get<std::string>`, of a key.
unfoldable pub get_text : Json → Text → Result Text
unfolding find_text items
get_text c key = elim (find_text key (items c)) [
  | none ↦ Result.thrown (conf_error (missing_property key))
  | (some c') ↦ elim c' [ (Json.string s) ↦ ok s | _ ↦ Result.thrown (conf_error wrong_type) ]
]

unfoldable pub without : Text → List (Text × Json) → List (Text × Json)
without key [] = []
without key (kv ∷ kvs) = if eq_text kv.0 key then kvs else kv ∷ without key kvs

unfoldable pub put_front : Option Schema → Option (List Schema) → Option (List Schema)
put_front (some s) (some ss) = some (s ∷ ss)
put_front (some s) none = none
put_front none later = none

module _ {T : Type 0} where
  -- None stands for the exception of a failed cast.
  unfoldable pub factory_base : Factory T → Text → Boxed → Option Struct
  unfolding set_property set_properties schema_of is_empty
  factory_base f name boxed =
      let base = set_property f.factory_key (const_schema true name) empty_struct in
      if is_empty f.args_key
      then elim boxed [
        | (a_struct s) ↦ some (set_properties s.properties base)
        | (another s) ↦ none
      ]
      else some (set_property f.args_key (schema_of boxed) base)

  unfoldable pub transformed : Factory T → Struct → Schema
  transformed f base = elim f.transform_func [
    | (some transform) ↦ transform base
    | none ↦ struct_schema base
  ]

  unfoldable pub factory_schemas : Factory T → List (Text × TypeFactory T) → Option (List Schema)
  unfolding factory_base transformed put_front
  factory_schemas f [] = some []
  factory_schemas f (kv ∷ kvs) =
      put_front
        (elim (factory_base f kv.0 kv.1.schema) [
          | none ↦ none
          | (some base) ↦ some (transformed f base)
        ])
        (factory_schemas f kvs)

  unfoldable pub reset_schema : Factory T → Option (Factory T)
  unfolding factory_schemas is_empty
  reset_schema f = if is_empty f.available then some f else elim (factory_schemas f f.available) [
    | none ↦ none
    | (some ss) ↦ some (record f {
      schema = some (record { is_required = false; unique_match = true; schemas = ss });
    })
  ]

  unfoldable pub set_factory_key : Text → Factory T → Option (Factory T)
  unfolding reset_schema
  set_factory_key keyword f = reset_schema (record f { factory_key = keyword })

  unfoldable pub set_args_key : Text → Factory T → Option (Factory T)
  unfolding reset_schema
  set_args_key keyword f = reset_schema (record f { args_key = keyword })

  unfoldable pub set_args_subset : Bool → Factory T → Factory T
  set_args_subset value f = record f { args_subset = value }

  unfoldable pub set_transform_schema : (Struct → Schema) → Factory T → Factory T
  set_transform_schema transform f = record f { transform_func = some transform }

  unfoldable pub has_factory : Text → Factory T → Bool
  unfolding find_text
  has_factory key f = is_some (find_text key f.available)

  -- `insert`, into the map of the factories, which keeps an entry that is there.
  unfoldable pub insert_factory :
      Text → TypeFactory T → List (Text × TypeFactory T) → List (Text × TypeFactory T)
  unfolding find_text
  insert_factory key t fs = if is_some (find_text key fs) then fs else (key, t) ∷ fs

  unfoldable pub erase_factory : Text → List (Text × TypeFactory T) → List (Text × TypeFactory T)
  erase_factory key [] = []
  erase_factory key (kv ∷ kvs) = if eq_text kv.0 key then kvs else kv ∷ erase_factory key kvs

  -- With whether the factory has been added.
  unfoldable pub add_factory : Text → TypeFactory T → Factory T → Option (Factory T × Bool)
  unfolding has_factory insert_factory reset_schema
  add_factory key t f =
      if not (has_factory key f)
      then elim (reset_schema (record f { available = insert_factory key t f.available })) [
        | none ↦ none
        | (some f') ↦ some (f', true)
      ]
      else some (f, false)

  unfoldable pub set_factory : Text → TypeFactory T → Factory T → Option (Factory T)
  unfolding has_factory insert_factory erase_factory reset_schema
  set_factory key t f =
      let emptied =
        if not (has_factory key f) then erase_factory key f.available else f.available in
      reset_schema (record f { available = insert_factory key t emptied })

  -- None stands for the assertion that there is a schema.
  unfoldable pub validate_factory : Factory T → Json → Option Reason → Option Verdict
  unfolding get_text has_factory set_error
  validate_factory f c err = elim f.schema [
    | none ↦ none
    | (some v) ↦ some (elim (get_text c f.factory_key) [
      | (Result.thrown e) ↦ Verdict.thrown e
      | (ok name) ↦
          if has_factory name f then validate_variant v c err else set_error unknown_factory err
    ])
  ]

  unfoldable pub factory_args : Factory T → Json → Json
  unfolding find_text items without to_members is_empty
  factory_args f c =
      if f.args_subset
      then (if is_empty f.args_key
          then Json.object (to_members (without f.factory_key (items c)))
          else elim (find_text f.args_key (items c)) [ none ↦ Json.null | (some a) ↦ a ])
      else c

  unfoldable pub make : Factory T → Json → Option (Result T)
  unfolding get_text factory_args find_text
  make f c = elim f.schema [
    | none ↦ none
    | (some v) ↦ some (elim (get_text c f.factory_key) [
      | (Result.thrown e) ↦ Result.thrown e
      | (ok name) ↦ elim (find_text name f.available) [
        | none ↦ Result.thrown (schema_error unknown_factory)
        | (some t) ↦ t.func (factory_args f c)
      ]
    ])
  ]

  erase_factory-absent :
      (key : Text) (fs : List (Text × TypeFactory T))
      → find_text key fs ≡ none
      → erase_factory key fs ≡ fs
  unfolding erase_factory find_text
  erase_factory-absent key [] absent = refl
  erase_factory-absent key (kv ∷ kvs) absent = ground (arith, erase_factory-absent key kvs)

  -- The factories that are available behind `set_factory`.
  replaced_lem :
      (key : Text) (t : TypeFactory T) (fs : List (Text × TypeFactory T))
      (o : Option (TypeFactory T))
      → find_text key fs ≡ o
      → insert_factory key t (if not (is_some o) then erase_factory key fs else fs)
        ≡ (if is_some o then fs else (key, t) ∷ fs)
  unfolding insert_factory
  replaced_lem key t fs none e = rw (erase_factory-absent key fs e, e) refl
  replaced_lem key t fs (some old) e = rw e refl

  -- Setting a factory stores it if its name is new; under a name that is taken, the old factory
  -- stays, and the schema is made again of what there is.
  pub set_factory-keeps :
      (key : Text) (t : TypeFactory T) (f : Factory T)
      → set_factory key t f
        ≡ reset_schema (record f {
          available = if has_factory key f then f.available else (key, t) ∷ f.available;
        })
  unfolding set_factory has_factory
  set_factory-keeps key t f =
      ap (λ fs. reset_schema (record f { available = fs }))
        (replaced_lem key t f.available (find_text key f.available) refl)
