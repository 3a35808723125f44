-- ===== src/Triggers/Types.antt =====
-- `Trigger` and `Source` of runtime/include/cloe/trigger.hpp and runtime/src/cloe/trigger.cpp.
use cloe.Prelude.{ℕ, String, Bool, true, false, not, ◌||◌, Option, none, some, if◌then◌else◌}

pub data Source : Type 0 where
  filesystem network model trigger instance_of lua : Source

-- `source_ != FILESYSTEM && source_ != NETWORK && source_ != LUA`.
unfoldable pub source_is_transient : Source → Bool
source_is_transient filesystem = false
source_is_transient network = false
source_is_transient lua = false
source_is_transient _ = true

pub data CallbackResult : Type 0 where
  proceed unpin : CallbackResult

-- The event by its name, and the time of a timed one; the action by a number, and whether it is
-- significant.
pub record Trigger : Type 0 where
  pub label : String
  pub source : Source
  pub event_name : String
  pub time : ℕ
  pub action : ℕ
  pub significant : Bool
  pub sticky : Bool
  pub conceal : Bool
  pub since : ℕ

-- The constructor.
unfoldable pub make : String → Source → String → ℕ → ℕ → Bool → Trigger
make label source event_name time action significant = record {
  label = label;
  source = source;
  event_name = event_name;
  time = time;
  action = action;
  significant = significant;
  sticky = false;
  conceal = false;
  since = 0;
}

unfoldable pub clone : Trigger → Trigger
unfolding make
clone t = make t.label instance_of t.event_name t.time t.action t.significant

-- `none` is the exception.
unfoldable pub set_conceal : Bool → Trigger → Option Trigger
set_conceal value t =
    if not value
    then some (record t { conceal = false })
    else if t.significant
    then none
    else some (record t { conceal = true })

unfoldable pub is_transient : Trigger → Bool
unfolding source_is_transient
is_transient t = source_is_transient t.source || t.conceal
