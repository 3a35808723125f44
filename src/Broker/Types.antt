-- ===== src/Broker/Types.antt =====
-- The state of the data broker: runtime/include/cloe/data_broker.hpp. A signal is reached by a
-- shared pointer and a container by its address: both are numbers here, and the two heaps are
-- functions. A value of any type is a `V`, and a `typeid` is a number. The calls of the subscribers
-- are recorded.
use cloe.Prelude.{ℕ, Bool, Option, List, String, Map, ◌==◌, if◌then◌else◌}

-- The exceptions, and the use of a container after its end.
pub data Error : Type 0 where
  invalid_argument out_of_range logic_error runtime_error regex_error dangling : Error

pub data Result {ℓ} (A : Type ℓ) : Type ℓ where
  returned : A → Result A
  thrown : Error → Result A

-- The result of what returns nothing.
abbrev pub Done : Type 0
Done = Result (Unit {0})

-- Where a getter reads and a setter writes: a container, or the variable of a `T* value_ptr`.
pub data Accessor : Type 0 where
  of_container : ℕ → Accessor
  of_variable : ℕ → Accessor

pub record Signal : Type 0 where
  pub names : List String
  pub type_id : ℕ
  pub get_value : Option Accessor
  pub set_value : Option Accessor
  -- The subscribers, in order.
  pub value_changed_event : List ℕ

pub record BasicContainer (V : Type 0) : Type 0 where
  pub value : V
  -- The signal whose event is raised.
  pub on_value_changed : Option ℕ
  pub signal : Option ℕ

pub record DataBroker (V : Type 0) : Type 0 where
  pub signals : Map ℕ
  pub heap : ℕ → Option Signal
  pub next_signal : ℕ
  pub containers : ℕ → Option (BasicContainer V)
  pub variables : ℕ → V
  -- Of the Lua side: whether there is a Lua state, the types that have an adapter, and the
  -- accessors.
  pub lua : Bool
  pub bindings : List ℕ
  pub lua_accessors : Map ℕ
  pub calls : List (ℕ × V)

-- A heap in which one address holds something else.
unfoldable pub put {ℓ} : {A : Type ℓ} → ℕ → A → (ℕ → A) → ℕ → A
put k a heap j = if j == k then a else heap j
