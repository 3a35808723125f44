-- ===== src/Fable/Schema/Ready.antt =====
-- What prototypes read: whatever their schemas accept, where the code and JSON schemas see a value
-- alike.
use cloe.Prelude.{
  ◌≡◌, refl, subst, ap, ◌∙◌, Bool, true, false, Option, none, some, if◌then◌else◌, is_some, ◌==◌,
  arith, ◌+◌,
}
use cloe.Prelude.Int.{ℤ, pos}
use cloe.Fable.Json.{Json, TypeName, to_string}
use cloe.Fable.Schema.Casts.{Machine, cast}
use cloe.Fable.Schema.Number.{Number, number_schema, number_type, integral}
use cloe.Fable.Schema.Scalars.{String, string_schema, boolean_schema}
use cloe.Fable.Schema.Containers.{optional_schema}
use cloe.Fable.Schema.Values.{
  Result, ok, Prototype, boolean_prototype, read_boolean, integer_prototype, read_integer,
  string_prototype, read_string, optional_prototype, read_optional,
}
use cloe.Fable.Schema.Accepts.{
  accepts, accepting, between, has_name, text_in, number_in, number_value, fits,
}
use cloe.Fable.Schema.JudgedNumber.{integer_name, no_integer}

-- Whatever the schema accepts is read.
abbrev pub Ready : {T : Type 0} → Prototype T → Type 0
Ready {T} p =
    (c : Json)
    → accepts p.schema.json_schema c ≡ true
    → fits c ≡ true
    → (x : T) × (p.deserialize c ≡ ok x)

pub boolean-Ready : Ready boolean_prototype
unfolding boolean_prototype boolean_schema read_boolean accepts has_name
boolean-Ready (Json.boolean b) h fit = (b, refl)
boolean-Ready c h fit = cc

pub string-Ready : (s : String) → s.interpolate ≡ false → Ready (string_prototype s)
unfolding string_prototype string_schema read_string accepts text_in
string-Ready s literal (Json.string src) h fit = (src, rw literal)
string-Ready s literal c h fit = cc

integer_read :
    (other : Json → Result ℤ) (t : Machine) (c : Json)
    → is_some (number_value TypeName.integer c) ≡ true
    → fits c ≡ true
    → (x : ℤ) × (read_integer other t c ≡ ok x)
unfolding read_integer number_value
integer_read other t (Json.number_unsigned v) h fit = (cast t (pos v), refl)
integer_read other t (Json.number_integer v) h fit = (cast t v, refl)
integer_read other t (Json.number_float f) h fit =
    let absent = no_integer f fit in absurd (ground (arith, h, absent))
integer_read other t c h fit = cc

number_in-some : (test : ℤ → Bool) (o : Option ℤ) → number_in test o ≡ true → is_some o ≡ true
unfolding number_in
number_in-some test none h = cc
number_in-some test (some v) h = refl

integer_only :
    (n : Number) (t : Machine) (c : Json)
    → n.kind ≡ integral t
    → accepts (number_schema n).json_schema c ≡ true
    → is_some (number_value TypeName.integer c) ≡ true
unfolding number_schema accepts
integer_only n t c kind h =
    subst (λ name. is_some (number_value name c) ≡ true)
      (ap (λ k. to_string (number_type k)) kind ∙ integer_name t)
      (number_in-some (between n.exclusive_min n.value_min n.exclusive_max n.value_max)
        (number_value (to_string (number_type n.kind)) c) h)

one_of_two : (b : Bool) → ((0 + ((if b then 1 else 0) + 0)) == 1) ≡ true → b ≡ true
one_of_two true h = refl
one_of_two false h = h

pub integer-Ready :
    (other : Json → Result ℤ) (t : Machine) (n : Number)
    → n.kind ≡ integral t
    → Ready (integer_prototype other t n)
unfolding integer_prototype
integer-Ready other t n kind c h fit = integer_read other t c (integer_only n t c kind h) fit

pub optional-Ready : {T : Type 0} (p : Prototype T) → Ready p → Ready (optional_prototype p)
unfolding optional_prototype optional_schema read_optional accepts has_name accepting
optional-Ready p ready Json.null h fit = (none, refl)
optional-Ready p ready c h fit =
    let (x, e) = ready c (one_of_two (accepts p.schema.json_schema c) h) fit in (some x, rw e)
