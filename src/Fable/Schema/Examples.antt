-- ===== src/Fable/Schema/Examples.antt =====
-- Examples of schemas, and of the properties that they have.
use cloe.Prelude.{◌≡◌, ◌≢◌, refl, Bool, true, false, Option, none, some, [], ◌∷◌}
use cloe.Prelude.Int.{pos}
use cloe.Prelude.Texts.{eq_text}
use cloe.Fable.Json.{Json, no_members, member, items, same, type_of}
use cloe.Fable.Schema.Interface.{Reason, wrong_type, conf_error, returned, thrown}
use cloe.Fable.Schema.Casts.{w8, is_cast_safe, in_range, json_integer}
use cloe.Fable.Schema.CastSafe.{is_cast_safe-in_range}
use cloe.Fable.Schema.Number.{
  Number, integral, number_schema, insert_whitelist, insert_blacklist, contains, put,
}
use cloe.Fable.Schema.Scalars.{boolean_schema, enum_schema, is_empty}
use cloe.Fable.Schema.Containers.{
  Vector, Array, MapSchema, parse_index, validate_object, set_extend,
}
use cloe.Fable.Schema.Composed.{Struct, struct_schema, Variant, validate_variant}
use cloe.Fable.Schema.Accepts.{Agrees, accepts, fits}
use cloe.Fable.Schema.JudgedNumber.{is_bounded}
use cloe.Fable.Schema.Plain.{
  a_boolean, a_number, an_enum, a_struct, no_more, one_more, no_prototype, Plain-Agrees,
}
use cloe.Fable.Schema.Refusals.{none_accepted, validate_object-inverted, enum_alternative-throws}
use cloe.Fable.Schema.Values.{
  boolean_prototype, read_boolean, optional_prototype, vector_prototype, map_prototype,
}
use cloe.Fable.Schema.ReadBack.{Reads, composed-Reads}
use cloe.Fable.Schema.Objects.{Pointer, pointed, StructObject}
use cloe.Fable.Schema.Written.{Written}

-- A number of eight bits, `n`, and an enumeration, `e`, of the text `a`.
abbrev byte : Number
byte = record {
  kind = integral (record { is_signed = false; width = w8 });
  is_required = true;
  exclusive_min = false;
  exclusive_max = true;
  value_min = pos 1;
  value_max = pos 200;
  whitelist = [];
  blacklist = [];
}

abbrev two_properties : Struct
two_properties = record {
  is_required = false;
  properties =
      ((110 ∷ []), number_schema byte) ∷ ((101 ∷ []), enum_schema false ((97 ∷ []) ∷ [])) ∷ [];
  properties_required = (110 ∷ []) ∷ [];
  additional_properties = false;
  additional_prototype = none;
}

-- `{"n": 7}`
abbrev seven : Json
seven = Json.object (member (110 ∷ []) (Json.number_unsigned 7) no_members)

Plain-Agrees_example :
    Agrees true
      (accepts (struct_schema two_properties).json_schema seven)
      ((struct_schema two_properties).validate seven none)
      none
unfolding is_bounded is_empty fits
Plain-Agrees_example =
    Plain-Agrees true (struct_schema two_properties) seven none
      (a_struct two_properties
        (one_more (110 ∷ []) (number_schema byte)
          (((101 ∷ []), enum_schema false ((97 ∷ []) ∷ [])) ∷ []) (a_number byte (refl, refl) refl)
          (one_more (101 ∷ []) (enum_schema false ((97 ∷ []) ∷ [])) []
            (an_enum false ((97 ∷ []) ∷ []) refl refl) no_more))
        no_prototype)
      refl

is_cast_safe-in_range_example :
    is_cast_safe (record { is_signed = true; width = w8 }) (json_integer false) (pos 200)
    ≡ in_range (record { is_signed = true; width = w8 }) (pos 200)
is_cast_safe-in_range_example =
    is_cast_safe-in_range (record { is_signed = true; width = w8 }) false (pos 200) refl

-- An array of two truth values.
abbrev pair : Array
pair = record {
  is_required = false;
  require_all = false;
  count = 2;
  prototype = boolean_schema false;
}

-- `{"1": true}`
abbrev second_true : Json
second_true = Json.object (member (49 ∷ []) (Json.boolean true) no_members)

validate_object-inverted_example :
    (err : Option Reason) × (validate_object pair second_true none
      ≡ returned (none_accepted pair.prototype (items second_true)) err)
unfolding fits items parse_index
validate_object-inverted_example =
    validate_object-inverted pair second_true none (a_boolean false) refl (refl, tt)

abbrev flag_or_letter : Variant
flag_or_letter = record {
  is_required = false;
  unique_match = true;
  schemas = boolean_schema false ∷ enum_schema false ((97 ∷ []) ∷ []) ∷ [];
}

-- A truth value is no null.
true-ne-null : Json.boolean true ≢ Json.null
true-ne-null e = cc

enum_alternative-throws_example :
    validate_variant flag_or_letter (Json.boolean true) none ≡ thrown (conf_error wrong_type)
unfolding fits same type_of
enum_alternative-throws_example =
    enum_alternative-throws false ((97 ∷ []) ∷ []) flag_or_letter (boolean_schema false ∷ []) []
      (Json.boolean true) none refl (a_boolean false, tt) refl refl

abbrev any_vector : Vector
any_vector = record {
  is_required = false;
  option_extend = false;
  min_items = 0;
  max_items = none;
  prototype = boolean_schema false;
}

abbrev any_map : MapSchema
any_map = record {
  is_required = false;
  unique_properties = true;
  min_properties = 0;
  max_properties = none;
  pattern = [];
  required = [];
  prototype = boolean_schema false;
  regex = λ pattern. none;
}

composed-Reads_example :
    Reads (optional_prototype boolean_prototype) (some true)
    × Reads (vector_prototype any_vector boolean_prototype) (true ∷ false ∷ [])
    × Reads (map_prototype any_map boolean_prototype) (((97 ∷ []), true) ∷ ((98 ∷ []), false) ∷ [])
unfolding boolean_prototype read_boolean eq_text
composed-Reads_example =
    composed-Reads boolean_prototype any_vector any_map true (true ∷ false ∷ [])
      (((97 ∷ []), true) ∷ ((98 ∷ []), false) ∷ []) refl true-ne-null (refl, (refl, tt))
      (refl, (refl, tt)) ((refl, tt), (tt, tt))

-- An object that is a truth value, with itself as the property `a`.
abbrev itself : Pointer Bool Bool
itself = record { get = λ s. s; set = λ x s. x }

abbrev one_flag : StructObject Bool
one_flag = record {
  is_required = false;
  properties = ((97 ∷ []), pointed itself boolean_prototype) ∷ [];
  properties_required = (97 ∷ []) ∷ [];
  additional_properties = false;
  additional_prototype = none;
}

-- `{"a": true}`
abbrev a_true : Json
a_true = Json.object (member (97 ∷ []) (Json.boolean true) no_members)

-- A value that is whitelisted can be blacklisted, but not the other way round; and what is set as
-- not to extend a vector is taken the other way.
blacklists_whitelisted : (insert_blacklist (pos 3) (insert_whitelist (pos 3) byte).0).1 ≡ false
unfolding insert_blacklist insert_whitelist contains put
blacklists_whitelisted = refl

whitelists_blacklisted : (insert_whitelist (pos 3) (insert_blacklist (pos 3) byte).0).1 ≡ true
unfolding insert_blacklist insert_whitelist contains put
whitelists_blacklisted = refl

set_extend_inverted : (set_extend true any_vector).option_extend ≡ false
unfolding set_extend
set_extend_inverted = refl
