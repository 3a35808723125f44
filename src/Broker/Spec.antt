-- ===== src/Broker/Spec.antt =====
-- What the data broker promises to those who reach a signal by name only: a registry of cells, each
-- with a type, a value and subscribers, without pointers, containers and accessors
-- (runtime/include/cloe/data_broker.hpp).
use cloe.Prelude.{
  ℕ, suc, Option, none, some, List, [], ◌∷◌, ◌++◌, map, String, Map, insert, lookup, ◌==◌,
  if◌then◌else◌, is_some, str_eq,
}
use cloe.Broker.Types.{
  invalid_argument, out_of_range, logic_error, dangling, Result, Done, returned, thrown, DataBroker,
  put,
}
use cloe.Broker.Results.{and_then, on_result, and_return, found}
use cloe.Broker.Signals.{alias, implement}
use cloe.Broker.Access.{signal, value, set_value, subscribe}

module _ (V : Type 0) where
  pub record Cell : Type 0 where
    pub type_id : ℕ
    pub value : V
    pub subscribers : List ℕ

  pub record Registry : Type 0 where
    pub bound : Map ℕ
    pub cells : ℕ → Option Cell
    pub next : ℕ
    pub calls : List (ℕ × V)

  -- `implement`, `alias` of what a name leads to, `subscribe`, `set_value` and `value`.
  pub data Command : Type 0 where
    implement_as : V → ℕ → String → Command
    alias_to : String → String → Command
    subscribe_to : ℕ → String → ℕ → Command
    write : ℕ → String → V → Command
    read : ℕ → String → Command

  pub data Answer : Type 0 where
    of_signal : Result ℕ → Answer
    of_done : Done → Answer
    of_value : Result V → Answer

module _ {V : Type 0} where
  unfoldable pub typed_cell : ℕ → ℕ → Registry V → Result (Cell V)
  typed_cell t s a = elim (a.cells s) [
    | none ↦ thrown dangling
    | (some c) ↦ if c.type_id == t then returned c else thrown logic_error
  ]

  unfoldable pub bind : ℕ → String → Registry V → Result ℕ × Registry V
  bind s name a =
      if str_eq name ""
      then (thrown invalid_argument, a)
      else if is_some (lookup name a.bound)
      then (thrown out_of_range, a)
      else (returned s, record a { bound = insert name s a.bound })

  unfoldable pub write_cell : ℕ → ℕ → V → Registry V → Done × Registry V
  unfolding on_result typed_cell put
  write_cell t s v a = on_result (typed_cell t s a) a (λ c. (
    returned tt,
    record a {
      cells = put s (some (record c { value = v })) a.cells;
      calls = a.calls ++ map (λ f. (f, v)) c.subscribers;
    },
  ))

  unfoldable pub subscribe_cell : ℕ → ℕ → ℕ → Registry V → Done × Registry V
  unfolding on_result typed_cell put
  subscribe_cell t s f a = on_result (typed_cell t s a) a (λ c. (
    returned tt,
    record a { cells = put s (some (record c { subscribers = c.subscribers ++ f ∷ [] })) a.cells },
  ))

  unfoldable pub new_cell : V → ℕ → String → Registry V → Result ℕ × Registry V
  unfolding and_then bind put
  new_cell v t name a = and_then (bind a.next name a) (λ s a₁. (
    returned s,
    record a₁ {
      cells = put s (some (record { type_id = t; value = v; subscribers = [] })) a₁.cells;
      next = suc s;
    },
  ))

  -- One call, as the registry answers it.
  unfoldable pub specified : Command V → Registry V → Answer V × Registry V
  unfolding new_cell bind subscribe_cell write_cell typed_cell found on_result and_return
  specified (implement_as v t name) a = let (r, a₁) = new_cell v t name a in (of_signal r, a₁)
  specified (alias_to name new_name) a =
      let (r, a₁) =
        on_result (found out_of_range (lookup name a.bound)) a (λ s. bind s new_name a) in
      (of_signal r, a₁)
  specified (subscribe_to t name f) a =
      let (r, a₁) =
        on_result (found out_of_range (lookup name a.bound)) a (λ s. subscribe_cell t s f a) in
      (of_done r, a₁)
  specified (write t name v) a =
      let (r, a₁) =
        on_result (found out_of_range (lookup name a.bound)) a (λ s. write_cell t s v a) in
      (of_done r, a₁)
  specified (read t name) a = (
    of_value (
        and_return (found out_of_range (lookup name a.bound))
          (λ s. and_return (typed_cell t s a) (λ c. returned c.value))),
    a,
  )

  -- The same call, of the broker. The containers begin at one address after the other.
  unfoldable pub answered : Command V → ℕ × DataBroker V → Answer V × (ℕ × DataBroker V)
  unfolding implement alias subscribe set_value value signal on_result
  answered (implement_as v t name) (k, b) =
      let (r, b₁) = implement v t name k b in (of_signal r, (suc k, b₁))
  answered (alias_to name new_name) (k, b) =
      let (r, b₁) = on_result (signal name b) b (λ s. alias s new_name b) in (of_signal r, (k, b₁))
  answered (subscribe_to t name f) (k, b) =
      let (r, b₁) = subscribe t name f b in (of_done r, (k, b₁))
  answered (write t name v) (k, b) = let (r, b₁) = set_value t name v b in (of_done r, (k, b₁))
  answered (read t name) (k, b) = (of_value (value t name b), (k, b))

  unfoldable pub run_specified : List (Command V) → Registry V → List (Answer V)
  unfolding specified
  run_specified [] a = []
  run_specified (c ∷ cs) a = let (r, a₁) = specified c a in r ∷ run_specified cs a₁

  unfoldable pub run_broker : List (Command V) → ℕ × DataBroker V → List (Answer V)
  unfolding answered
  run_broker [] w = []
  run_broker (c ∷ cs) w = let (r, w₁) = answered c w in r ∷ run_broker cs w₁
