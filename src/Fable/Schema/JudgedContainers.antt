-- ===== src/Fable/Schema/JudgedContainers.antt =====
-- Schemas of optional values, vectors, arrays and maps validate just what their documents accept,
-- if their prototypes do.
use cloe.Prelude.{
  ℕ, ◌+◌, ◌≡◌, ◌⊎◌, inl, inr, refl, sym, subst, Bool, true, false, Option, some, List, [], ◌∷◌,
  ◌&&◌, not, if◌then◌else◌, Bool-cases, arith, All, length, ltb, ◌==◌,
}
use cloe.Prelude.Texts.{Text}
use cloe.Fable.Json.{Json, JsonType, elements, items, size, same, type_of}
use cloe.Fable.Schema.Interface.{
  Reason, wrong_type, too_few, too_many, no_properties, array_of, Verdict, returned, and_then,
  set_error, validate_type, each, Schema,
}
use cloe.Fable.Schema.Scalars.{above, is_empty}
use cloe.Fable.Schema.Containers.{
  Vector, validate_vector, vector_schema, Array, validate_array, validate_all, array_schema,
  MapSchema, validate_map, validate_entries, entries_valid, map_schema, validate_optional,
  optional_schema, all_present,
}
use cloe.Fable.Schema.Accepts.{
  Agrees, Judges, accepts, accepts_member, members_in, has_name, all_in, has_all, fits, at_most,
}
use cloe.Fable.Schema.Agreement.{
  and_then-Agrees, guard-Agrees, each-Agrees, all_present-Agrees, fits-elements, fits-items,
}
use cloe.Fable.Schema.Judged.{at_most-above}

-- Everything that the schema accepts has the type that it has, and null is not accepted.
abbrev pub KeepsType : Schema → Type 0
KeepsType p =
    (accepts p.json_schema Json.null ≡ false)
    × ((c : Json) (err : Option Reason)
        → accepts p.json_schema c ≡ true
        → validate_type p.type c err ≡ returned true err)

one_plus : (b : Bool) → ((0 + ((if b then 1 else 0) + 0)) == 1) ≡ b
one_plus true = refl
one_plus false = refl

validate_type-cases :
    (t : JsonType) (c : Json) (err : Option Reason)
    → (validate_type t c err ≡ returned true err)
      ⊎ (validate_type t c err ≡ returned false (some wrong_type))
unfolding validate_type set_error
validate_type-cases t c err = elim (Bool-cases (same (type_of c) t)) [
  | inl e ↦ inl (rw e)
  | inr e ↦ elim (Bool-cases (same (type_of c) JsonType.number_unsigned)) [
    | inl u ↦ elim (Bool-cases (same t JsonType.number_integer)) [
      | inl i ↦ inl (rw (e, u, i))
      | inr i ↦ inr (rw (e, u, i))
    ]
    | inr u ↦ inr (rw (e, u))
  ]
]

typed-Agrees :
    (m a : Bool) (p : Schema) (c : Json) (err : Option Reason)
    → (a ≡ true → validate_type p.type c err ≡ returned true err)
    → Agrees m a (p.validate c err) err
    → Agrees m a (and_then (validate_type p.type c err) (p.validate c)) err
unfolding and_then
typed-Agrees m true p c err keeps agrees = rw (keeps refl) agrees
typed-Agrees m false p c err keeps agrees = elim (validate_type-cases p.type c err) [
  | inl e ↦ rw e agrees
  | inr e ↦ rw e (inl (wrong_type, refl))
]

pub optional_schema-Judges :
    (m required : Bool) (p : Schema)
    → KeepsType p
    → Judges m p
    → Judges m (optional_schema required p)
unfolding optional_schema accepts has_name validate_optional
optional_schema-Judges m required p keeps judged Json.null err fit = rw keeps.0 refl
optional_schema-Judges m required p keeps judged c err fit =
    rw (one_plus (accepts p.json_schema c))
      (typed-Agrees m (accepts p.json_schema c) p c err (keeps.1 c err) (judged c err fit))

vector_size-Agrees :
    (m : Bool) (v : Vector) (c : Json) (err : Option Reason)
    → Judges m v.prototype
    → fits c ≡ true
    → size c ≡ length (elements c)
    → Agrees m
        (not (ltb (length (elements c)) v.min_items)
          && (at_most v.max_items (length (elements c))
              && all_in (accepts v.prototype.json_schema) (elements c)))
        (if ltb (size c) v.min_items
          then set_error too_few err
          else if above v.max_items (size c)
          then set_error too_many err
          else each v.prototype.validate (elements c) err)
        err
vector_size-Agrees m v c err judged fit sized =
    rw (sized, at_most-above v.max_items (length (elements c)))
      (guard-Agrees m _ (ltb (length (elements c)) v.min_items) too_few _ err (
        guard-Agrees m _ (above v.max_items (length (elements c))) too_many _ err (
          each-Agrees m (accepts v.prototype.json_schema) v.prototype.validate (elements c) err
            judged (fits-elements c fit))))

pub vector_schema-Judges :
    (m : Bool) (v : Vector) → Judges m v.prototype → Judges m (vector_schema v)
unfolding vector_schema accepts has_name validate_vector validate_type and_then size set_error
vector_schema-Judges m v judged (Json.array xs) err fit =
    vector_size-Agrees m v (Json.array xs) err judged fit refl
vector_schema-Judges m v judged c err fit = inl (wrong_type, refl)

-- Both limits at once.
two_limits :
    (n count : ℕ) (b : Bool)
    → (not (ltb n count) && (not (ltb count n) && b)) ≡ (if not (n == count) then false else b)
two_limits n count b = ground arith

stop-Agrees :
    (m stop b : Bool) (r : Reason) (v : Verdict) (err : Option Reason)
    → Agrees m b v err
    → Agrees m (if stop then false else b) (if stop then set_error r err else v) err
unfolding set_error
stop-Agrees m true b r v err agrees = inl (r, refl)
stop-Agrees m false b r v err agrees = agrees

validate_all-Agrees :
    (m : Bool) (a : Array) (c : Json) (err : Option Reason)
    → Judges m a.prototype
    → fits c ≡ true
    → Agrees m
        (accepts (array_of a.prototype.json_schema a.count (some a.count)) c)
        (validate_all a c err)
        err
unfolding accepts has_name at_most validate_all validate_type and_then validate_array size set_error
validate_all-Agrees m a (Json.array xs) err judged fit =
    let n = length (elements (Json.array xs)) in
    subst (λ b. Agrees m b (validate_array a (Json.array xs) err) err)
      (sym (
        two_limits n a.count (all_in (accepts a.prototype.json_schema) (elements (Json.array xs)))))
      (stop-Agrees m (not (n == a.count)) _ (if ltb n a.count then too_few else too_many) _ err (
        each-Agrees m (accepts a.prototype.json_schema) a.prototype.validate
          (elements (Json.array xs)) err judged (fits-elements (Json.array xs) fit)))
validate_all-Agrees m a c err judged fit = inl (wrong_type, refl)

pub array_schema-Judges :
    (m : Bool) (a : Array) → a.require_all ≡ true → Judges m a.prototype → Judges m (array_schema a)
unfolding array_schema validate_all
array_schema-Judges m a all judged c err fit =
    rw all (validate_all-Agrees m (record a { require_all = true }) c err judged fit)

entries_valid-Agrees :
    (m : Bool) (p : Schema) (kvs : List (Text × Json)) (err : Option Reason)
    → Judges m p
    → All (λ kv. fits kv.1 ≡ true) kvs
    → Agrees m
        (members_in (accepts_member no_properties (accepts p.json_schema)) kvs)
        (entries_valid p (λ name. true) kvs err)
        err
unfolding members_in entries_valid accepts_member
entries_valid-Agrees m p [] err judged fit = refl
entries_valid-Agrees m p (kv ∷ kvs) err judged fit =
    and_then-Agrees m (accepts p.json_schema kv.1) _ (p.validate kv.1 err) _ err
      (judged kv.1 err fit.0) (entries_valid-Agrees m p kvs err judged fit.1)

validate_entries-Agrees :
    (m : Bool) (s : MapSchema) (c : Json) (err : Option Reason)
    → is_empty s.pattern ≡ true
    → Judges m s.prototype
    → fits c ≡ true
    → Agrees m
        (members_in (accepts_member no_properties (accepts s.prototype.json_schema)) (items c))
        (validate_entries s c err)
        err
unfolding validate_entries
validate_entries-Agrees m s c err plain judged fit =
    rw plain (entries_valid-Agrees m s.prototype (items c) err judged (fits-items c fit))

-- The order of the checks of a map.
map_checks-Agrees :
    (m : Bool) (s : MapSchema) (c : Json) (err : Option Reason)
    → is_empty s.pattern ≡ true
    → Judges m s.prototype
    → fits c ≡ true
    → size c ≡ length (items c)
    → Agrees m
        (not (ltb (length (items c)) s.min_properties)
          && (at_most s.max_properties (length (items c))
              && (has_all c s.required
                  && members_in
                      (accepts_member no_properties (accepts s.prototype.json_schema))
                      (items c))))
        (if ltb (size c) s.min_properties
          then set_error too_few err
          else if above s.max_properties (size c)
          then set_error too_many err
          else and_then (all_present c s.required err) (validate_entries s c))
        err
map_checks-Agrees m s c err plain judged fit sized =
    rw (sized, at_most-above s.max_properties (length (items c)))
      (guard-Agrees m _ (ltb (length (items c)) s.min_properties) too_few _ err (
        guard-Agrees m _ (above s.max_properties (length (items c))) too_many _ err (
          and_then-Agrees m (has_all c s.required) _ (all_present c s.required err) _ err
            (all_present-Agrees m c s.required err)
            (validate_entries-Agrees m s c err plain judged fit))))

pub map_schema-Judges :
    (m : Bool) (s : MapSchema)
    → is_empty s.pattern ≡ true
    → Judges m s.prototype
    → Judges m (map_schema s)
unfolding map_schema accepts has_name validate_map validate_type and_then size set_error
map_schema-Judges m s plain judged (Json.object ms) err fit =
    map_checks-Agrees m s (Json.object ms) err plain judged fit refl
map_schema-Judges m s plain judged c err fit = inl (wrong_type, refl)
