-- ===== src/Fable/Schema/Objects.antt =====
-- Objects that are configured: `from_conf` and `to_json` of fable/include/fable/schema and
-- fable/src/fable/schema, and fable/src/fable/confable.cpp. A pointer into an object is how a part
-- of it is read and written; what an exception interrupts leaves the object as it is by then.
use cloe.Prelude.{
  Bool, true, false, Option, none, some, List, [], ◌∷◌, ◌++◌, ◌&&◌, ◌||◌, not, if◌then◌else◌,
  is_some,
}
use cloe.Prelude.Texts.{Text, find_text}
use cloe.Fable.Json.{Json, JsonType, items, elements, has, to_members, type_of, same}
use cloe.Fable.Schema.Interface.{
  wrong_type, missing_property, unexpected_property, defined_already, Exception, conf_error,
  schema_error, logic_error, Verdict, Schema, validate_or_throw,
}
use cloe.Fable.Schema.Containers.{Vector, vector_schema, MapSchema, map_schema}
use cloe.Fable.Schema.Composed.{Struct, struct_schema}
use cloe.Fable.Schema.Values.{Result, ok, Prototype, write_vector, write_map, insert_entry}

pub data Load (S : Type 0) : Type 0 where
  loaded : S → Load S
  failed : Exception → S → Load S
  undefined : Load S

pub record Pointer (S : Type 0) (T : Type 0) : Type 0 where
  pub get : S → T
  pub set : T → S → S

pub record Interface (S : Type 0) : Type 0 where
  pub schema : Schema
  pub to_json : S → Json
  pub from_conf : Json → S → Load S

module _ {S T : Type 0} where
  -- `*ptr_ = deserialize(c)`
  unfoldable pub assign : Pointer S T → Prototype T → Json → S → Load S
  assign ptr p c s = elim (p.deserialize c) [
    | (ok x) ↦ loaded (ptr.set x s)
    | (Result.thrown e) ↦ failed e s
  ]

  unfoldable pub pointed : Pointer S T → Prototype T → Interface S
  unfolding assign
  pointed ptr p = record {
    schema = p.schema;
    to_json = λ s. p.serialize (ptr.get s);
    from_conf = assign ptr p;
  }

  -- vector.hpp; each value is put into the vector once it is read.
  unfoldable pub fill : Pointer S (List T) → Prototype T → List Json → S → Load S
  fill ptr p [] s = loaded s
  fill ptr p (c ∷ cs) s = elim (p.deserialize c) [
    | (ok x) ↦ fill ptr p cs (ptr.set (ptr.get s ++ x ∷ []) s)
    | (Result.thrown e) ↦ failed e s
  ]

  unfoldable pub fill_from : Pointer S (List T) → Prototype T → Json → S → Load S
  unfolding fill elements
  fill_from ptr p (Json.array xs) s = fill ptr p (elements (Json.array xs)) s
  fill_from ptr p c s = failed (conf_error wrong_type) s

  unfoldable pub vector_at : Pointer S (List T) → Vector → Prototype T → Interface S
  unfolding fill_from
  vector_at ptr v p = record {
    schema = vector_schema (record v { prototype = p.schema });
    to_json = λ s. write_vector p (ptr.get s);
    from_conf = λ c s. fill_from ptr p c (if v.option_extend then s else ptr.set [] s);
  }

  -- map.hpp
  unfoldable pub insert_all :
      Pointer S (List (Text × T)) → Bool → Prototype T → List (Text × Json) → S → Load S
  unfolding find_text
  insert_all ptr unique p [] s = loaded s
  insert_all ptr unique p (kv ∷ kvs) s =
      if unique && is_some (find_text kv.0 (ptr.get s))
      then failed (schema_error defined_already) s
      else elim (p.deserialize kv.1) [
        | (ok x) ↦ insert_all ptr unique p kvs (ptr.set (insert_entry kv.0 x (ptr.get s)) s)
        | (Result.thrown e) ↦ failed e s
      ]

  unfoldable pub map_at : Pointer S (List (Text × T)) → MapSchema → Prototype T → Interface S
  unfolding insert_all
  map_at ptr m p = record {
    schema = map_schema (record m { prototype = p.schema });
    to_json = λ s. write_map p (ptr.get s);
    from_conf = λ c s. insert_all ptr m.unique_properties p (items c) s;
  }

-- `assert_has`, of each required property.
unfoldable pub first_missing : Json → List Text → Option Text
unfolding has
first_missing c [] = none
first_missing c (k ∷ ks) = if has c k then first_missing c ks else some k

unfoldable pub is_null : Json → Bool
unfolding same type_of
is_null c = same (type_of c) JsonType.null

-- struct.cpp
pub record StructObject (S : Type 0) : Type 0 where
  pub is_required : Bool
  pub properties : List (Text × Interface S)
  pub properties_required : List Text
  pub additional_properties : Bool
  pub additional_prototype : Option Schema

module _ {S : Type 0} where
  unfoldable pub schemas_in : List (Text × Interface S) → List (Text × Schema)
  schemas_in [] = []
  schemas_in (p ∷ ps) = (p.0, p.1.schema) ∷ schemas_in ps

  unfoldable pub struct_of : StructObject S → Struct
  unfolding schemas_in
  struct_of o = record {
    is_required = o.is_required;
    properties = schemas_in o.properties;
    properties_required = o.properties_required;
    additional_properties = o.additional_properties;
    additional_prototype = o.additional_prototype;
  }

  unfoldable pub then_load : Load S → (S → Load S) → Load S
  then_load (loaded s) next = next s
  then_load (failed e s) next = failed e s
  then_load undefined next = undefined

  unfoldable pub load_additional : StructObject S → Text → Json → S → Load S
  unfolding validate_or_throw
  load_additional o k c s = elim o.additional_prototype [
    | (some p) ↦ elim (validate_or_throw p c) [ none ↦ loaded s | (some e) ↦ failed e s ]
    | none ↦
        if o.additional_properties
        then loaded s
        else failed (schema_error (unexpected_property k)) s
  ]

  unfoldable pub load_property : StructObject S → Text → Json → S → Load S
  unfolding load_additional find_text
  load_property o k c s = elim (find_text k o.properties) [
    | (some i) ↦ i.from_conf c s
    | none ↦ load_additional o k c s
  ]

  unfoldable pub load_properties : StructObject S → List (Text × Json) → S → Load S
  unfolding load_property then_load
  load_properties o [] s = loaded s
  load_properties o (kv ∷ kvs) s = then_load (load_property o kv.0 kv.1 s) (load_properties o kvs)

  -- The handlers.
  unfoldable pub as_schema_error : Load S → Load S
  as_schema_error (loaded s) = loaded s
  as_schema_error (failed (conf_error r) s) = failed (schema_error r) s
  as_schema_error (failed (schema_error r) s) = failed (schema_error r) s
  as_schema_error (failed logic_error s) = failed logic_error s
  as_schema_error undefined = undefined

  unfoldable pub load_struct : StructObject S → Json → S → Load S
  unfolding first_missing load_properties as_schema_error items
  load_struct o c s = as_schema_error (elim (first_missing c o.properties_required) [
    | (some k) ↦ failed (conf_error (missing_property k)) s
    | none ↦ load_properties o (items c) s
  ])

  unfoldable pub write_properties : List (Text × Interface S) → S → List (Text × Json)
  unfolding is_null
  write_properties [] s = []
  write_properties (p ∷ ps) s =
      if not (is_null (p.1.to_json s)) || p.1.schema.is_required
      then (p.0, p.1.to_json s) ∷ write_properties ps s
      else write_properties ps s

  unfoldable pub struct_at : StructObject S → Interface S
  unfolding struct_of load_struct write_properties to_members
  struct_at o = record {
    schema = struct_schema (struct_of o);
    to_json = λ s. Json.object (to_members (write_properties o.properties s));
    from_conf = load_struct o;
  }

  -- confable.cpp; without an error, the one that is thrown is not there.
  unfoldable pub confable_from_conf : Interface S → Json → S → Load S
  confable_from_conf i c s = elim (i.schema.validate c none) [
    | (Verdict.returned true err) ↦ i.from_conf c s
    | (Verdict.returned false none) ↦ undefined
    | (Verdict.returned false (some r)) ↦ failed (schema_error r) s
    | (Verdict.thrown e) ↦ failed e s
  ]
