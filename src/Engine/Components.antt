-- ===== src/Engine/Components.antt =====
-- The components of one vehicle, which may be made from one another:
-- engine/src/simulation_state_connect.cpp.
pub mod Termination
use cloe.Prelude.{
  ℕ, zero, suc, ◌+◌, ◌≤◌, ◌<◌, ◌≡◌, ◌≢◌, refl, Bool, true, false, not, ◌&&◌, Option, none, some,
  List, [], ◌∷◌, String, length, ◌==◌, if◌then◌else◌, str_eq, eq_iff, arith,
}

pub record ComponentConf : Type 0 where
  pub key : String
  pub from : List String

-- The components that the vehicle has, and the keys of those that have been configured.
pub record Configured : Type 0 where
  pub components : List String
  pub configured : List String

pub data ComponentsOutcome : Type 0 where
  complete : Configured → ComponentsOutcome
  -- The `ModelError` of a component, and that of a dependency that cannot be resolved.
  failed : ComponentsOutcome
  unresolved : String → String → ComponentsOutcome
  assertion_failed out_of_fuel : ComponentsOutcome

abbrev pub is_among : String → List String → Bool
is_among name [] = false
is_among name (x ∷ xs) = if str_eq x name then true else is_among name xs

-- The first input that the vehicle does not have.
unfoldable pub missing : List String → List String → Option String
missing [] xs = none
missing (name ∷ names) xs = if is_among name xs then missing names xs else some name

-- `set_component` and the mark that follows it.
unfoldable pub set_component : ComponentConf → Configured → Configured
set_component c p = record {
  components = if is_among c.key p.components then p.components else c.key ∷ p.components;
  configured = c.key ∷ p.configured;
}

-- The report of the first input that is missing; `none` where there is none such.
unfoldable pub report_missing : List ComponentConf → Configured → Option ComponentsOutcome
unfolding missing
report_missing [] p = none
report_missing (c ∷ cs) p =
    let rest = report_missing cs p in
    if is_among c.key p.configured then rest else elim c.from [
      | [] ↦ some assertion_failed
      | (x ∷ xs) ↦ elim (missing c.from p.components) [
        | none ↦ rest
        | (some name) ↦ some (unresolved c.key name)
      ]
    ]

abbrev pub report_or : Option ComponentsOutcome → ComponentsOutcome → ComponentsOutcome
report_or none again = again
report_or (some o) again = o

-- `makes` says whether a component can be made, connected and enrolled; otherwise it is a
-- `ModelError`.
module _ (makes : ComponentConf → Bool) where
  -- Once through all the configurations; `none` is the exception. A component whose inputs are not
  -- all there is a null pointer.
  unfoldable pub make_pass : List ComponentConf → Configured → Option Configured
  unfolding missing set_component
  make_pass [] p = some p
  make_pass (c ∷ cs) p =
      let skipped = make_pass cs p in
      let made = make_pass cs (set_component c p) in
      if is_among c.key p.configured then skipped else elim (missing c.from p.components) [
        | (some name) ↦ skipped
        | none ↦ if makes c then made else none
      ]

  unfoldable pub resolve_components : ℕ → List ComponentConf → Configured → ComponentsOutcome
  unfolding make_pass report_missing
  resolve_components zero cs p = out_of_fuel
  resolve_components (suc fuel) cs p =
      if length p.configured == length cs then complete p else elim (make_pass cs p) [
        | none ↦ failed
        | (some p₁) ↦
            let again = resolve_components fuel cs p₁ in
            if length p₁.configured == length p.configured
            then report_or (report_missing cs p₁) again
            else again
      ]

-- How many configurations are done, and how often a key is that of a configuration.
abbrev pub one_if : Bool → ℕ
one_if true = 1
one_if false = 0

unfoldable pub count_done : List ComponentConf → Configured → ℕ
count_done [] p = 0
count_done (c ∷ cs) p = one_if (is_among c.key p.configured) + count_done cs p

unfoldable pub count_key : String → List ComponentConf → ℕ
count_key q [] = 0
count_key q (c ∷ cs) = one_if (str_eq q c.key) + count_key q cs
