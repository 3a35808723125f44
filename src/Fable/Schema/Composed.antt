-- ===== src/Fable/Schema/Composed.antt =====
-- Schemas of objects with named properties, and of variants: fable/include/fable/schema and
-- fable/src/fable/schema, struct.hpp, struct.cpp, variant.hpp and variant.cpp.
use cloe.Prelude.{
  ℕ, suc, Bool, true, false, Option, none, some, List, [], ◌∷◌, if◌then◌else◌, is_some,
}
use cloe.Prelude.Texts.{Text, eq_text, find_text}
use cloe.Fable.Json.{Json, JsonType, same, items}
use cloe.Fable.Schema.Interface.{
  Reason, no_variant, many_variants, unexpected_property, Exception, Verdict, returned, thrown,
  set_error, validate_type, and_then, Document, anything, nothing, object_of, Properties, property,
  no_properties, one_of, any_of, Documents, document, no_documents, Schema,
}
use cloe.Fable.Schema.Scalars.{is_among}
use cloe.Fable.Schema.Containers.{all_present}

-- The properties are a map, whose `insert` keeps an entry that is there.
pub record Struct : Type 0 where
  pub is_required : Bool
  pub properties : List (Text × Schema)
  pub properties_required : List Text
  pub additional_properties : Bool
  pub additional_prototype : Option Schema

-- The first occurrence is erased.
unfoldable pub erase : Text → List Text → List Text
erase k [] = []
erase k (x ∷ xs) = if eq_text x k then xs else x ∷ erase k xs

unfoldable pub push_new : Text → List Text → List Text
unfolding is_among
push_new k [] = k ∷ []
push_new k (x ∷ xs) = if eq_text x k then x ∷ xs else x ∷ push_new k xs

unfoldable pub insert_property : Text → Schema → List (Text × Schema) → List (Text × Schema)
unfolding find_text
insert_property k s ps = if is_some (find_text k ps) then ps else (k, s) ∷ ps

unfoldable pub set_property : Text → Schema → Struct → Struct
unfolding insert_property push_new erase
set_property k s struct = record struct {
  properties = insert_property k s struct.properties;
  properties_required =
      if s.is_required
      then push_new k struct.properties_required
      else erase k struct.properties_required;
}

unfoldable pub set_properties : List (Text × Schema) → Struct → Struct
unfolding set_property
set_properties [] struct = struct
set_properties (p ∷ ps) struct = set_properties ps (set_property p.0 p.1 struct)

unfoldable pub set_require : List Text → Struct → Struct
unfolding push_new
set_require [] struct = struct
set_require (k ∷ ks) struct =
    set_require ks (record struct { properties_required = push_new k struct.properties_required })

unfoldable pub keys_of : List (Text × Schema) → List Text
keys_of [] = []
keys_of (p ∷ ps) = p.0 ∷ keys_of ps

unfoldable pub set_require_all : Struct → Struct
unfolding keys_of
set_require_all struct = record struct { properties_required = keys_of struct.properties }

unfoldable pub set_additional_properties : Schema → Struct → Struct
set_additional_properties s struct = record struct {
  additional_properties = true;
  additional_prototype = some s;
}

-- A property that the struct does not name.
unfoldable pub validate_additional : Struct → Text → Json → Option Reason → Verdict
unfolding set_error
validate_additional struct k c err = elim struct.additional_prototype [
  | (some p) ↦ p.validate c err
  | none ↦
      if struct.additional_properties
      then returned true err
      else set_error (unexpected_property k) err
]

unfoldable pub validate_property : Struct → Text → Json → Option Reason → Verdict
unfolding validate_additional find_text
validate_property struct k c err = elim (find_text k struct.properties) [
  | (some s) ↦ s.validate c err
  | none ↦ validate_additional struct k c err
]

unfoldable pub validate_properties : Struct → List (Text × Json) → Option Reason → Verdict
unfolding validate_property and_then
validate_properties struct [] err = returned true err
validate_properties struct (kv ∷ kvs) err =
    and_then (validate_property struct kv.0 kv.1 err) (validate_properties struct kvs)

unfoldable pub validate_struct : Struct → Json → Option Reason → Verdict
unfolding validate_type and_then all_present validate_properties items
validate_struct struct c err = and_then (validate_type JsonType.object c err) λ err'.
    and_then (all_present c struct.properties_required err') (validate_properties struct (items c))

unfoldable pub property_schemas : List (Text × Schema) → Properties
property_schemas [] = no_properties
property_schemas (p ∷ ps) = property p.0 p.1.json_schema (property_schemas ps)

unfoldable pub additional_schema : Struct → Document
additional_schema struct = elim struct.additional_prototype [
  | (some p) ↦ p.json_schema
  | none ↦ if struct.additional_properties then anything else nothing
]

unfoldable pub struct_schema : Struct → Schema
unfolding validate_struct property_schemas additional_schema
struct_schema struct = record {
  type = JsonType.object;
  is_variant = false;
  is_required = struct.is_required;
  json_schema =
      object_of (property_schemas struct.properties) struct.properties_required
        (additional_schema struct) 0 none;
  validate = validate_struct struct;
}

pub record Variant : Type 0 where
  pub is_required : Bool
  pub unique_match : Bool
  pub schemas : List Schema

-- The first type that is not that of a variant, and whether there is another one or a variant.
unfoldable pub one_type : List Schema → Option JsonType → Option JsonType
unfolding same
one_type [] t = t
one_type (s ∷ ss) none = let rest = one_type ss (some s.type) in if s.is_variant then none else rest
one_type (s ∷ ss) (some t) =
    let rest = one_type ss (some t) in
    if s.is_variant then none else if same s.type t then rest else none

unfoldable pub variant_type : List Schema → JsonType
unfolding one_type
variant_type ss = elim (one_type ss none) [ none ↦ JsonType.null | (some t) ↦ t ]

-- The indices of the schemas that match, or what one of them throws.
pub data Matches : Type 0 where
  matches : List ℕ → Matches
  aborted : Exception → Matches

unfoldable pub add_match : ℕ → Verdict → Matches → Matches
add_match i (thrown e) later = Matches.aborted e
add_match i (returned b err) (Matches.aborted e) = Matches.aborted e
add_match i (returned true err) (matches is) = matches (i ∷ is)
add_match i (returned false err) (matches is) = matches is

unfoldable pub find_matches : ℕ → List Schema → Json → Matches
unfolding add_match
find_matches i [] c = matches []
find_matches i (s ∷ ss) c = add_match i (s.validate c none) (find_matches (suc i) ss c)

-- The index and the error that are left, or an exception.
pub data Index : Type 0 where
  index : Option ℕ → Option Reason → Index
  aborted : Exception → Index

unfoldable pub choose : Bool → List ℕ → Option Reason → Index
choose unique [] err = index none (some no_variant)
choose unique (i ∷ []) err = index (some i) err
choose unique (i ∷ j ∷ is) err =
    if unique then index none (some many_variants) else index (some i) err

unfoldable pub validate_index : Variant → Json → Option Reason → Index
unfolding find_matches choose
validate_index v c err = elim (find_matches 0 v.schemas c) [
  | (matches is) ↦ choose v.unique_match is err
  | (Matches.aborted e) ↦ Index.aborted e
]

unfoldable pub validate_variant : Variant → Json → Option Reason → Verdict
unfolding validate_index
validate_variant v c err = elim (validate_index v c err) [
  | (index i err') ↦ Verdict.returned (is_some i) err'
  | (Index.aborted e) ↦ Verdict.thrown e
]

unfoldable pub schemas_of : List Schema → Documents
schemas_of [] = no_documents
schemas_of (s ∷ ss) = document s.json_schema (schemas_of ss)

unfoldable pub variant_schema : Variant → Schema
unfolding validate_variant variant_type schemas_of
variant_schema v = record {
  type = variant_type v.schemas;
  is_variant = true;
  is_required = v.is_required;
  json_schema =
      if v.unique_match then one_of (schemas_of v.schemas) else any_of (schemas_of v.schemas);
  validate = validate_variant v;
}
