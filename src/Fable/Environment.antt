-- ===== src/Fable/Environment.antt =====
-- Environment variables in texts: fable/src/fable/environment.cpp. A text is a list of its code
-- units.
use cloe.Prelude.{
  ℕ, zero, suc, ◌+◌, ◌-◌, Bool, Option, none, some, List, [], ◌∷◌, ◌++◌, length, ◌==◌, ltb, leb,
  not, if◌then◌else◌,
}
use cloe.Prelude.Texts.{Text, find_text}

-- The exceptions, and the recursion at its end of fuel.
pub data Error : Type 0 where
  invalid_argument out_of_range out_of_fuel : Error

pub data Result : Type 0 where
  returned : Text → Result
  thrown : Error → Result

unfoldable pub and_return : Result → (Text → Result) → Result
and_return (returned t) f = f t
and_return (thrown e) f = thrown e

-- `getenv`, and the map of the definitions.
pub record Environment : Type 0 where
  pub getenv : Text → Option Text
  pub defines : List (Text × Text)

unfoldable pub take : ℕ → Text → Text
take zero s = []
take (suc n) [] = []
take (suc n) (c ∷ cs) = c ∷ take n cs

unfoldable pub drop : ℕ → Text → Text
drop zero s = s
drop (suc n) [] = []
drop (suc n) (c ∷ cs) = drop n cs

-- `substr`. A count that has wrapped around is longer than any text.
unfoldable pub slice : Text → ℕ → ℕ → Result
unfolding take drop
slice s start end =
    if ltb (length s) start
    then thrown out_of_range
    else if leb start end
    then returned (take (end - start) (drop start s))
    else returned (drop start s)

unfoldable pub or_else : Option Text → Option Text → Option Text
or_else (some t) other = some t
or_else none other = other

unfoldable pub get : Bool → Text → Environment → Option Text
unfolding or_else
get prefer_external key env =
    let external = env.getenv key in
    let internal = find_text key env.defines in
    if prefer_external then or_else external internal else or_else internal external

unfoldable pub require : Bool → Text → Environment → Result
unfolding get
require prefer_external key env = elim (get prefer_external key env) [
  | none ↦ thrown out_of_range
  | (some t) ↦ returned t
]

-- The characters that count: 36 is the dollar, 125 the closing brace, 123 the opening one.
pub data Special : Type 0 where
  dollar closing other : Special

unfoldable pub special : ℕ → Special
special c = if c == 36 then dollar else if c == 125 then closing else other

pub data AfterDollar : Type 0 where
  escaped opening unescaped : AfterDollar

unfoldable pub after_dollar : ℕ → AfterDollar
after_dollar c = if c == 36 then escaped else if c == 123 then opening else unescaped

-- `output += slice(s, start, pos)`, and what follows.
unfoldable pub append_slice : Text → ℕ → ℕ → Text → (Text → Result) → Result
unfolding slice and_return
append_slice s start pos output f = and_return (slice s start pos) (λ t. f (output ++ t))

-- The loop of `interpolate`, from `pos` on; `ev` is `evaluate`.
unfoldable pub scan : Text → (Text → Result) → Text → Text → ℕ → ℕ → ℕ → Result
unfolding append_slice slice and_return special after_dollar
scan s ev [] output start pos depth =
    if not (depth == 0)
    then thrown invalid_argument
    else if start == pos
    then returned output
    else append_slice s start pos output (λ t. returned t)
scan s ev (c ∷ []) output start pos depth = elim (special c) [
  | dollar ↦ thrown invalid_argument
  | closing ↦ elim depth [
    | zero ↦ scan s ev [] output start (pos + 1) 0
    | (suc zero) ↦
        and_return (slice s (start + 2) pos)
          (λ token. and_return (ev token) (λ t. scan s ev [] (output ++ t) (pos + 1) (pos + 1) 0))
    | (suc (suc d)) ↦ scan s ev [] output start (pos + 1) (suc d)
  ]
  | other ↦ scan s ev [] output start (pos + 1) depth
]
scan s ev (c ∷ d ∷ ds) output start pos depth = elim (special c) [
  | dollar ↦ elim (after_dollar d) [
    | escaped ↦ append_slice s start pos output (λ t. scan s ev ds t (pos + 1) (pos + 2) depth)
    | opening ↦ elim depth [
      | zero ↦ append_slice s start pos output (λ t. scan s ev ds t pos (pos + 2) 1)
      | (suc e) ↦ scan s ev ds output start (pos + 2) (suc (suc e))
    ]
    | unescaped ↦ thrown invalid_argument
  ]
  | closing ↦ elim depth [
    | zero ↦ scan s ev (d ∷ ds) output start (pos + 1) 0
    | (suc zero) ↦ and_return (slice s (start + 2) pos) (λ token.
        and_return (ev token) (λ t. scan s ev (d ∷ ds) (output ++ t) (pos + 1) (pos + 1) 0))
    | (suc (suc e)) ↦ scan s ev (d ∷ ds) output start (pos + 1) (suc e)
  ]
  | other ↦ scan s ev (d ∷ ds) output start (pos + 1) depth
]

unfoldable pub further : Option ℕ → Option ℕ
further none = none
further (some n) = some (suc n)

-- `s.find("-")`
unfoldable pub find_dash : Text → Option ℕ
unfolding further
find_dash [] = none
find_dash (c ∷ cs) = let later = further (find_dash cs) in if c == 45 then some 0 else later

-- What `evaluate` gives where the variable has no value; `pos` is that of the dash.
unfoldable pub alternative : (Text → Result) → Bool → Text → Option ℕ → Result
unfolding slice and_return
alternative interpolated allow_undefined s (some pos) =
    and_return (slice s (pos + 1) (length s)) interpolated
alternative interpolated allow_undefined s none =
    if allow_undefined then returned [] else thrown out_of_range

unfoldable pub raw_key : Text → Option ℕ → Result
unfolding slice
raw_key s none = returned s
raw_key s (some pos) = slice s 0 pos

-- `evaluate`, with the function that stands for `interpolate`.
unfoldable pub evaluate : (Text → Result) → Bool → Bool → Environment → Text → Result
unfolding find_dash raw_key and_return get alternative
evaluate interpolated prefer_external allow_undefined env s =
    let pos = find_dash s in
    and_return (raw_key s pos) (λ raw. and_return (interpolated raw) (λ key.
      elim (get prefer_external key env) [
        | (some t) ↦ returned t
        | none ↦ alternative interpolated allow_undefined s pos
      ]))

unfoldable pub interpolate : ℕ → Bool → Bool → Environment → Text → Result
unfolding scan evaluate
interpolate zero prefer_external allow_undefined env s = thrown out_of_fuel
interpolate (suc fuel) prefer_external allow_undefined env s =
    scan s
      (evaluate (interpolate fuel prefer_external allow_undefined env) prefer_external
        allow_undefined env)
      s [] 0 0 0
