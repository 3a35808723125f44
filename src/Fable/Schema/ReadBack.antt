-- ===== src/Fable/Schema/ReadBack.antt =====
-- What prototypes write they read back.
use cloe.Prelude.{
  ℕ, ◌≡◌, ◌≢◌, refl, ap, sym, ◌∙◌, Bool, true, false, Option, none, some, List, [], ◌∷◌, ◌++◌, not,
  if◌then◌else◌, map, All, length, ltb, arith, append_nil, append_one,
}
use cloe.Prelude.Int.{ℤ, pos, negsuc}
use cloe.Prelude.Texts.{Text, eq_text, find_text}
use cloe.Fable.Json.{Json, TypeName, items, elements-to_items, items-to_members}
use cloe.Fable.Schema.Casts.{Machine, in_range, cast}
use cloe.Fable.Schema.CastSafe.{cast_lem}
use cloe.Fable.Schema.Number.{Number}
use cloe.Fable.Schema.Interface.{Document, object_of, no_properties}
use cloe.Fable.Schema.Scalars.{is_empty}
use cloe.Fable.Schema.Accepts.{accepts, accepts_member, members_in, has_name, at_most, has_all}
use cloe.Fable.Schema.Containers.{Vector, MapSchema, map_schema}
use cloe.Fable.Schema.Values.{
  Result, ok, ◌>>=◌, Prototype, write_integer, read_integer, integer_prototype, optional_prototype,
  write_optional, read_optional, read_each, read_vector, write_vector, vector_prototype,
  write_entries, write_map, insert_entry, read_entries, map_prototype,
}

-- The value is read back as it is.
abbrev pub Reads : {T : Type 0} → Prototype T → T → Type 0
Reads p x = p.deserialize (p.serialize x) ≡ ok x

read_integer-either :
    (other : Json → Result ℤ) (t : Machine) (n : ℕ) (signed : Bool)
    → read_integer other t (if signed then Json.number_integer (pos n) else Json.number_unsigned n)
      ≡ ok (cast t (pos n))
unfolding read_integer
read_integer-either other t n true = refl
read_integer-either other t n false = refl

-- An integer within the limits of its type.
pub integer-Reads :
    (other : Json → Result ℤ) (t : Machine) (n : Number) (v : ℤ)
    → in_range t v ≡ true
    → Reads (integer_prototype other t n) v
unfolding integer_prototype write_integer read_integer
integer-Reads other t n (pos v) fit =
    read_integer-either other t v t.is_signed ∙ ap ok (cast_lem t (pos v) fit)
integer-Reads other t n (negsuc v) fit = ap ok (cast_lem t (negsuc v) fit)

module _ {T : Type 0} (p : Prototype T) where
  read_optional-other :
      (c : Json) → c ≢ Json.null → read_optional p c ≡ (p.deserialize c >>= λ x. ok (some x))
  unfolding read_optional
  read_optional-other Json.null other = absurd (other refl)
  read_optional-other c other = refl

  pub optional-Reads :
      (x : T) → p.serialize x ≢ Json.null → Reads p x → Reads (optional_prototype p) (some x)
  unfolding optional_prototype write_optional
  optional-Reads x other reads = read_optional-other (p.serialize x) other ∙ rw reads

  read_each-map : (xs : List T) → All (Reads p) xs → read_each p (map p.serialize xs) ≡ ok xs
  unfolding read_each
  read_each-map [] reads = refl
  read_each-map (x ∷ xs) reads = rw (reads.0, read_each-map xs reads.1)

  pub vector-Reads : (v : Vector) (xs : List T) → All (Reads p) xs → Reads (vector_prototype v p) xs
  unfolding vector_prototype write_vector read_vector
  vector-Reads v xs reads = rw (elements-to_items (map p.serialize xs)) (read_each-map xs reads)

  -- No key comes twice.
  abbrev pub Distinct : List (Text × T) → Type 0
  Distinct [] = Unit
  Distinct (kv ∷ kvs) = All (λ other. eq_text kv.0 other.0 ≡ false) kvs × Distinct kvs

  insert_entry-new :
      (k : Text) (x : T) (kvs : List (Text × T))
      → find_text k kvs ≡ none
      → insert_entry k x kvs ≡ kvs ++ (k, x) ∷ []
  unfolding insert_entry find_text
  insert_entry-new k x [] new = refl
  insert_entry-new k x (kv ∷ kvs) new = ground (arith, insert_entry-new k x kvs)

  find_text-end :
      (k : Text) (kv : Text × T) (read : List (Text × T))
      → find_text k read ≡ none
      → eq_text kv.0 k ≡ false
      → find_text k (read ++ kv ∷ []) ≡ none
  unfolding find_text
  find_text-end k kv [] new other = rw other
  find_text-end k kv (entry ∷ read) new other = ground (arith, find_text-end k kv read)

  New : List (Text × T) → List (Text × T) → Type 0
  New read kvs = All (λ kv. find_text kv.0 read ≡ none) kvs

  New-end :
      (kv : Text × T) (read kvs : List (Text × T))
      → New read kvs
      → All (λ other. eq_text kv.0 other.0 ≡ false) kvs
      → New (read ++ kv ∷ []) kvs
  unfolding New
  New-end kv read [] new others = tt
  New-end kv read (next ∷ kvs) new others =
      (find_text-end next.0 kv read new.0 others.0, New-end kv read kvs new.1 others.1)

  read_entries-write :
      (kvs read : List (Text × T))
      → All (λ kv. Reads p kv.1) kvs
      → Distinct kvs
      → New read kvs
      → read_entries p (write_entries p kvs) read ≡ ok (read ++ kvs)
  unfolding read_entries write_entries New
  read_entries-write [] read reads distinct new = ap ok (sym (append_nil read))
  read_entries-write (kv ∷ kvs) read reads distinct new =
      rw (reads.0, insert_entry-new kv.0 kv.1 read new.0)
        (read_entries-write kvs (read ++ kv ∷ []) reads.1 distinct.1
            (New-end kv read kvs new.1 distinct.0)
          ∙ ap ok (append_one read kv kvs))

  New-nil : (kvs : List (Text × T)) → New [] kvs
  unfolding New find_text
  New-nil [] = tt
  New-nil (kv ∷ kvs) = (refl, New-nil kvs)

  pub map-Reads :
      (m : MapSchema) (kvs : List (Text × T))
      → All (λ kv. Reads p kv.1) kvs
      → Distinct kvs
      → Reads (map_prototype m p) kvs
  unfolding map_prototype write_map
  map-Reads m [] reads distinct = refl
  map-Reads m (kv ∷ kvs) reads distinct =
      ap (λ l. read_entries p l []) (items-to_members (write_entries p (kv ∷ kvs)))
      ∙ read_entries-write (kv ∷ kvs) [] reads distinct (New-nil (kv ∷ kvs))

-- A prototype that reads back each of the values at hand: made optional, it reads back a value that
-- is not written as null; as that of a vector, the vector of them; and as that of a map, the map of
-- them by distinct keys. Whatever can be set in the schemas of the vector and the map is set in any
-- way.
pub composed-Reads :
    {T : Type 0} (p : Prototype T) (v : Vector) (m : MapSchema) (x : T) (xs : List T)
    (kvs : List (Text × T))
    → Reads p x
    → p.serialize x ≢ Json.null
    → All (Reads p) xs
    → All (λ kv. Reads p kv.1) kvs
    → Distinct p kvs
    → Reads (optional_prototype p) (some x)
      × Reads (vector_prototype v p) xs
      × Reads (map_prototype m p) kvs
composed-Reads p v m x xs kvs one other each entries distinct =
    (optional-Reads p x other one, vector-Reads p v xs each, map-Reads p m kvs entries distinct)

no_limit : (n : ℕ) → not (ltb n 0) ≡ true
no_limit n = ground arith

unlimited-accepts :
    (d : Document) (c : Json) (required : List Text) (least : ℕ) (most : Option ℕ)
    (kvs : List (Text × Json))
    → has_name TypeName.object c ≡ true
    → items c ≡ kvs
    → least ≡ 0
    → most ≡ none
    → required ≡ []
    → accepts (object_of no_properties required d least most) c
      ≡ members_in (accepts_member no_properties (accepts d)) kvs
unfolding accepts at_most has_all
unlimited-accepts d c required least most kvs named same zero_least no_most not_required =
    rw (named, same, zero_least, no_most, not_required, no_limit (length kvs)) refl

-- Written maps and their schema.
module _ {T : Type 0} (p : Prototype T) (m : MapSchema) where
  entries-accepted :
      (kvs : List (Text × T))
      → All (λ kv. accepts p.schema.json_schema (p.serialize kv.1) ≡ true) kvs
      → members_in
          (accepts_member no_properties (accepts p.schema.json_schema))
          (write_entries p kvs)
        ≡ true
  unfolding members_in accepts_member write_entries
  entries-accepted [] accepted = refl
  entries-accepted (kv ∷ kvs) accepted = rw (accepted.0, entries-accepted kvs accepted.1)

  -- A map without limits and required names, and values whose JSON the prototype accepts: the JSON
  -- that is written for the map is accepted by its schema if and only if the map is not empty,
  -- since an empty one is written as null.
  pub write_map-accepted :
      (kvs : List (Text × T))
      → m.min_properties ≡ 0
      → m.max_properties ≡ none
      → m.required ≡ []
      → All (λ kv. accepts p.schema.json_schema (p.serialize kv.1) ≡ true) kvs
      → accepts (map_prototype m p).schema.json_schema (write_map p kvs) ≡ not (is_empty kvs)
  unfolding map_prototype map_schema accepts write_map has_name is_empty at_most has_all
  write_map-accepted [] least most required accepted = refl
  write_map-accepted (kv ∷ kvs) least most required accepted =
      unlimited-accepts p.schema.json_schema (write_map p (kv ∷ kvs)) m.required m.min_properties
        m.max_properties (write_entries p (kv ∷ kvs)) refl
        (items-to_members (write_entries p (kv ∷ kvs))) least most required
      ∙ entries-accepted (kv ∷ kvs) accepted
