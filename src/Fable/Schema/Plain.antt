-- ===== src/Fable/Schema/Plain.antt =====
-- Schemas made of the classes, within the bounds in which JSON schemas can say what they validate.
use cloe.Prelude.{◌≡◌, Bool, true, false, Option, none, some, List, [], ◌∷◌, All}
use cloe.Prelude.Texts.{Text}
use cloe.Fable.Json.{Json, JsonType}
use cloe.Fable.Schema.Interface.{Reason, Schema}
use cloe.Fable.Schema.Duration.{Duration, duration_schema, number_of, duration_schema-Judges}
use cloe.Fable.Schema.Number.{Number, number_schema}
use cloe.Fable.Schema.Scalars.{
  String, string_schema, boolean_schema, enum_schema, const_schema, ignore_schema, is_empty,
}
use cloe.Fable.Schema.Containers.{
  Vector, vector_schema, Array, array_schema, MapSchema, map_schema, optional_schema,
}
use cloe.Fable.Schema.Composed.{Struct, struct_schema, Variant, variant_schema}
use cloe.Fable.Schema.Accepts.{Agrees, Judges, accepts, fits}
use cloe.Fable.Schema.Judged.{
  boolean_schema-Judges, ignore_schema-Judges, string_schema-Judges, enum_schema-Judges,
  const_schema-Judges,
}
use cloe.Fable.Schema.JudgedNumber.{Unlisted, is_bounded, number_schema-Judges}
use cloe.Fable.Schema.JudgedContainers.{
  KeepsType, optional_schema-Judges, vector_schema-Judges, array_schema-Judges, map_schema-Judges,
}
use cloe.Fable.Schema.JudgedComposed.{AdditionalJudges, struct_schema-Judges, variant_schema-Judges}

-- The first argument is whether `validate` may throw: enumerations and constants do so. Left out
-- are lists of numbers, patterns, interpolation, and arrays that can be given as objects.
mutual
  pub data Plain : Bool → Schema → Type 0 where
    a_boolean : {m : Bool} (required : Bool) → Plain m (boolean_schema required)
    an_ignored : {m : Bool} (required : Bool) (t : JsonType) → Plain m (ignore_schema required t)
    a_number :
        {m : Bool} (n : Number)
        → Unlisted n
        → is_bounded n.kind n ≡ true
        → Plain m (number_schema n)
    a_duration :
        {m : Bool} (d : Duration)
        → is_bounded d.kind (number_of d) ≡ true
        → Plain m (duration_schema d)
    a_string :
        {m : Bool} (s : String)
        → s.interpolate ≡ false
        → is_empty s.pattern ≡ true
        → Plain m (string_schema s)
    an_enum :
        {m : Bool} (required : Bool) (keys : List Text)
        → m ≡ true
        → is_empty keys ≡ false
        → Plain m (enum_schema required keys)
    a_const : {m : Bool} (required : Bool) (t : Text) → m ≡ true → Plain m (const_schema required t)
    an_optional :
        {m : Bool} (required : Bool) (p : Schema)
        → KeepsType p
        → Plain m p
        → Plain m (optional_schema required p)
    a_vector : {m : Bool} (v : Vector) → Plain m v.prototype → Plain m (vector_schema v)
    an_array :
        {m : Bool} (a : Array)
        → a.require_all ≡ true
        → Plain m a.prototype
        → Plain m (array_schema a)
    a_map :
        {m : Bool} (s : MapSchema)
        → is_empty s.pattern ≡ true
        → Plain m s.prototype
        → Plain m (map_schema s)
    a_struct :
        {m : Bool} (struct : Struct)
        → PlainProperties m struct.properties
        → PlainAdditional m struct.additional_prototype
        → Plain m (struct_schema struct)
    a_variant : {m : Bool} (v : Variant) → PlainSchemas v.schemas → Plain m (variant_schema v)

  pub data PlainProperties : Bool → List (Text × Schema) → Type 0 where
    no_more : {m : Bool} → PlainProperties m []
    one_more :
        {m : Bool} (k : Text) (s : Schema) (ps : List (Text × Schema))
        → Plain m s
        → PlainProperties m ps
        → PlainProperties m ((k, s) ∷ ps)

  pub data PlainAdditional : Bool → Option Schema → Type 0 where
    no_prototype : {m : Bool} → PlainAdditional m none
    prototype : {m : Bool} (s : Schema) → Plain m s → PlainAdditional m (some s)

  -- The alternatives of a variant do not throw.
  pub data PlainSchemas : List Schema → Type 0 where
    no_schemas : PlainSchemas []
    one_schema :
        (s : Schema) (ss : List Schema) → Plain false s → PlainSchemas ss → PlainSchemas (s ∷ ss)

mutual
  judges : (m : Bool) (s : Schema) → Plain m s → Judges m s
  judges m s (a_boolean required) = boolean_schema-Judges m required
  judges m s (an_ignored required t) = ignore_schema-Judges m required t
  judges m s (a_number n unlisted bounded) = number_schema-Judges m n unlisted bounded
  judges m s (a_duration d bounded) = duration_schema-Judges m d bounded
  judges m s (a_string t literal plain) = string_schema-Judges m t literal plain
  judges m s (an_enum required keys may filled) = rw may (enum_schema-Judges required keys filled)
  judges m s (a_const required t may) = rw may (const_schema-Judges required t)
  judges m s (an_optional required p keeps plain) =
      optional_schema-Judges m required p keeps (judges m p plain)
  judges m s (a_vector v plain) = vector_schema-Judges m v (judges m v.prototype plain)
  judges m s (an_array a all plain) = array_schema-Judges m a all (judges m a.prototype plain)
  judges m s (a_map t plain inner) = map_schema-Judges m t plain (judges m t.prototype inner)
  judges m s (a_struct t named more) =
      struct_schema-Judges m t (All-judge m t.properties named)
        (more_judge m t.additional_prototype more)
  judges m s (a_variant v plain) = variant_schema-Judges m v (each-Judges v.schemas plain)

  All-judge :
      (m : Bool) (ps : List (Text × Schema)) → PlainProperties m ps → All (λ p. Judges m p.1) ps
  All-judge m ps no_more = tt
  All-judge m ps (one_more k s rest plain more) = (judges m s plain, All-judge m rest more)

  more_judge : (m : Bool) (p : Option Schema) → PlainAdditional m p → AdditionalJudges m p
  more_judge m p no_prototype = tt
  more_judge m p (prototype s plain) = judges m s plain

  each-Judges : (ss : List Schema) → PlainSchemas ss → All (Judges false) ss
  each-Judges ss no_schemas = tt
  each-Judges ss (one_schema s rest plain more) = (judges false s plain, each-Judges rest more)

-- A schema made of the classes, and its parts too, validates just what the schema that it gives out
-- in JSON accepts by draft 07, for each value whose integers are integers of the machine, whose
-- other numbers are no integers, and whose texts are ASCII: `validate` returns true, and leaves the
-- error that it is passed, if and only if the value is accepted; else it returns false and leaves
-- an error, or throws, if the schema is one that may throw: enumerations and constants may, and
-- what is made of them, of which variants are not made here. Not among these schemas: a number with
-- a whitelist or a blacklist, or in floating point; a number or a duration with limits beyond its
-- type; a text or a map with a pattern; an interpolated text; an empty enumeration; an array that
-- can be given as an object; and an optional value whose prototype accepts null, or a value of
-- another type than its own.
pub Plain-Agrees :
    (may_throw : Bool) (s : Schema) (c : Json) (err : Option Reason)
    → Plain may_throw s
    → fits c ≡ true
    → Agrees may_throw (accepts s.json_schema c) (s.validate c err) err
Plain-Agrees may_throw s c err plain fit = judges may_throw s plain c err fit
