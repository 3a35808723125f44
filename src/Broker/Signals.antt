-- ===== src/Broker/Signals.antt =====
-- The operations on signals and containers: runtime/include/cloe/data_broker.hpp.
use cloe.Prelude.{
  ℕ, suc, Bool, true, false, Option, none, some, List, [], ◌∷◌, ◌++◌, String, Map, lookup, insert,
  ◌==◌, if◌then◌else◌, is_some, str_eq,
}
use cloe.Broker.Types.{
  invalid_argument, out_of_range, regex_error, Result, returned, thrown, Accessor, of_container,
  of_variable, Signal, BasicContainer, DataBroker, put,
}
use cloe.Broker.Results.{and_then, on_result, found}

unfoldable pub add_name : String → Signal → Signal
add_name name x = record x { names = x.names ++ name ∷ [] }

-- The names that match.
unfoldable pub matching : (String → Bool) → Map ℕ → List String
matching matches [] = []
matching matches (entry ∷ rest) =
    let later = matching matches rest in if matches entry.0 then entry.0 ∷ later else later

-- Just one name has to match.
unfoldable pub only_match : List String → Result String
only_match [] = thrown out_of_range
only_match (name ∷ []) = returned name
only_match (name ∷ other ∷ rest) = thrown out_of_range

abbrev pub holds : ℕ → List ℕ → Bool
holds t [] = false
holds t (u ∷ us) = if t == u then true else holds t us

unfoldable pub make : ℕ → Signal
make t = record {
  names = [];
  type_id = t;
  get_value = none;
  set_value = none;
  value_changed_event = [];
}

unfoldable pub set_accessors : Option Accessor → Signal → Signal
set_accessors a x = record x { get_value = a; set_value = a }

module _ {V : Type 0} where
  unfoldable pub on_signal : ℕ → (Signal → Signal) → DataBroker V → DataBroker V
  unfolding put
  on_signal s f b = elim (b.heap s) [
    | none ↦ b
    | (some x) ↦ record b { heap = put s (some (f x)) b.heap }
  ]

  unfoldable pub alias : ℕ → String → DataBroker V → Result ℕ × DataBroker V
  unfolding on_signal add_name
  alias s new_name b =
      if str_eq new_name ""
      then (thrown invalid_argument, b)
      else if is_some (lookup new_name b.signals)
      then (thrown out_of_range, b)
      else (
        returned s,
        on_signal s (add_name new_name) (record b { signals = insert new_name s b.signals }),
      )

  -- `alias` by a regular expression. The constructor of `std::regex` and the test of a whole name
  -- are those of the standard library: `none` is a text that is no regular expression. The signal
  -- of the entry that matches is what its key leads to.
  unfoldable pub alias_regex :
      (String → Option (String → Bool)) → String → String → DataBroker V → Result ℕ × DataBroker V
  unfolding matching only_match alias on_result found
  alias_regex regex old_name new_name b =
      on_result (found regex_error (regex old_name)) b (λ matches.
        on_result (only_match (matching matches b.signals)) b (λ name.
          on_result (found out_of_range (lookup name b.signals)) b (λ s. alias s new_name b)))

  -- The private `declare`: the adapter of the type for Lua.
  unfoldable pub declare_type : ℕ → DataBroker V → DataBroker V
  declare_type t b =
      if b.lua
      then (if holds t b.bindings then b else record b { bindings = t ∷ b.bindings })
      else b

  -- The signal that has been made goes with its last pointer when it cannot be named.
  unfoldable pub declare : ℕ → String → DataBroker V → Result ℕ × DataBroker V
  unfolding alias declare_type make put
  declare t name b =
      let b₁ = declare_type t b in
      let s = b₁.next_signal in
      let (named, b₂) =
        alias s name (record b₁ { heap = put s (some (make t)) b₁.heap; next_signal = suc s }) in
      elim named [ (returned r) ↦ (returned r, b₂) | (thrown e) ↦ (thrown e, b₁) ]

  unfoldable pub declare_variable : ℕ → String → ℕ → DataBroker V → Result ℕ × DataBroker V
  unfolding declare set_accessors on_signal and_then
  declare_variable t name p b =
      and_then (declare t name b)
        (λ s b₁. (returned s, on_signal s (set_accessors (some (of_variable p))) b₁))

  -- `update_accessor_functions`, with the container's address or none.
  unfoldable pub update_accessor_functions :
      Option ℕ → Option Accessor → DataBroker V → DataBroker V
  unfolding set_accessors on_signal
  update_accessor_functions none a b = b
  update_accessor_functions (some s) a b = on_signal s (set_accessors a) b

  -- `create_container`, at the address `k`, with the value of `value_{}`.
  unfoldable pub create_container : V → ℕ → ℕ → DataBroker V → DataBroker V
  unfolding put update_accessor_functions
  create_container initial s k b =
      update_accessor_functions (some s) (some (of_container k)) (record b {
        containers =
            put k (some (record { value = initial; on_value_changed = some s; signal = some s }))
              b.containers;
      })

  unfoldable pub implement : V → ℕ → String → ℕ → DataBroker V → Result ℕ × DataBroker V
  unfolding declare create_container and_then declare_type
  implement initial t name k b =
      and_then (declare t name (declare_type t b))
        (λ s b₁. (returned s, create_container initial s k b₁))

  -- `~BasicContainer`
  unfoldable pub destroy : ℕ → DataBroker V → DataBroker V
  unfolding put update_accessor_functions
  destroy k b = elim (b.containers k) [
    | none ↦ b
    | (some c) ↦
        (let b₁ = update_accessor_functions c.signal none b in
          record b₁ { containers = put k none b₁.containers })
  ]

  -- `operator=(BasicContainer&&)`, from the container `r` to the container `k`. The function that
  -- has been moved from is taken to be empty.
  unfoldable pub move_from : BasicContainer V → BasicContainer V
  move_from c = record c { on_value_changed = none; signal = none }

  unfoldable pub move_assign : ℕ → ℕ → DataBroker V → DataBroker V
  unfolding put update_accessor_functions move_from
  move_assign k r b = elim (b.containers r) [
    | none ↦ b
    | (some c) ↦
        (let b₁ =
            update_accessor_functions c.signal (some (of_container k))
              (record b { containers = put k (some c) b.containers }) in
          record b₁ { containers = put r (some (move_from c)) b₁.containers })
  ]

  -- `BasicContainer(BasicContainer&&)`: the container at `k` begins with this.
  unfoldable pub move_construct : ℕ → ℕ → DataBroker V → DataBroker V
  unfolding move_assign
  move_construct k r b = move_assign k r b
