-- ===== src/Broker/Linked/Naming.antt =====
-- Declaring and naming signals keeps them linked: runtime/include/cloe/data_broker.hpp.
use cloe.Prelude.{
  ℕ, ◌≡◌, refl, Bool, true, Option, none, some, lookup, String, lookup-insert, is_some, eq_iff,
  arith,
}
use cloe.Broker.Types.{out_of_range, regex_error, DataBroker, put}
use cloe.Broker.Results.{and_then, on_result, on_result-keeps, found}
use cloe.Broker.Signals.{
  on_signal, add_name, alias, alias_regex, matching, only_match, declare_type, make, declare,
  set_accessors, declare_variable,
}
use cloe.Broker.Linked.{
  get_of, set_of, signal_of, event_of, names_of, has_name, has_name-append, IsLinked,
}

module _ {V : Type 0} where
  pub alias-IsLinked :
      (s : ℕ) (name : String) (b : DataBroker V)
      → is_some (b.heap s) ≡ true
      → IsLinked b
      → IsLinked (alias s name b).1
  unfolding alias on_signal add_name put get_of set_of signal_of event_of names_of
  alias-IsLinked s name b live h = record {
    reads = λ t k e. ground (arith, h.reads t k);
    writes = λ t k e. ground (arith, h.writes t k);
    fresh = λ t l. ground (arith, h.fresh t);
    paired = λ t. ground (arith, h.paired t);
    named = λ t q. ground (
      arith,
      h.named t q,
      lookup-insert name q s b.signals,
      has_name-append q name (names_of t b),
      eq_iff name q,
      h.known q t,
    );
    notifies = λ k t e. ground (arith, h.notifies k t);
    known = λ q t e. ground (arith, h.known q t, lookup-insert name q s b.signals);
  }

  alias-found-IsLinked :
      (name new_name : String) (b : DataBroker V) (o : Option ℕ)
      → lookup name b.signals ≡ o
      → IsLinked b
      → IsLinked (on_result (found out_of_range o) b (λ s. alias s new_name b)).1
  unfolding on_result found
  alias-found-IsLinked name new_name b none e h = h
  alias-found-IsLinked name new_name b (some s) e h =
      alias-IsLinked s new_name b (h.known name s e) h

  pub alias_regex-IsLinked :
      (regex : String → Option (String → Bool)) (old_name new_name : String) (b : DataBroker V)
      → IsLinked b
      → IsLinked (alias_regex regex old_name new_name b).1
  unfolding alias_regex
  alias_regex-IsLinked regex old_name new_name b h =
      on_result-keeps IsLinked (found regex_error (regex old_name)) b _ h (λ matches.
        on_result-keeps IsLinked (only_match (matching matches b.signals)) b _ h
          (λ name. alias-found-IsLinked name new_name b (lookup name b.signals) refl h))

  pub declare-IsLinked :
      (t : ℕ) (name : String) (b : DataBroker V) → IsLinked b → IsLinked (declare t name b).1
  unfolding declare alias on_signal add_name put get_of set_of signal_of event_of names_of
      declare_type make has_name
  declare-IsLinked ty name b h = record {
    reads = λ t k e. ground (arith, h.reads t k);
    writes = λ t k e. ground (arith, h.writes t k);
    fresh = λ t l. ground (arith, h.fresh t);
    paired = λ t. ground (arith, h.paired t);
    named = λ t q. ground (
      arith,
      h.named t q,
      lookup-insert name q (declare_type ty b).next_signal b.signals,
      has_name-append q name (names_of t b),
      eq_iff name q,
      h.known q t,
      h.fresh (declare_type ty b).next_signal,
    );
    notifies = λ k t e. ground (arith, h.notifies k t);
    known = λ q t e.
        ground (arith, h.known q t, lookup-insert name q (declare_type ty b).next_signal b.signals);
  }

  pub declare_variable-IsLinked :
      (t : ℕ) (name : String) (p : ℕ) (b : DataBroker V)
      → IsLinked b
      → IsLinked (declare_variable t name p b).1
  unfolding declare_variable and_then on_signal set_accessors put get_of set_of signal_of event_of
      names_of
  declare_variable-IsLinked ty name p b h =
      let h₁ = declare-IsLinked ty name b h in
      record {
        reads = λ t k e. ground (arith, h₁.reads t k);
        writes = λ t k e. ground (arith, h₁.writes t k);
        fresh = λ t l. ground (arith, h₁.fresh t);
        paired = λ t. ground (arith, h₁.paired t);
        named = λ t q. ground (arith, h₁.named t q);
        notifies = λ k t e. ground (arith, h₁.notifies k t);
        known = λ q t e. ground (arith, h₁.known q t);
      }

  pub declare_type-IsLinked : (t : ℕ) (b : DataBroker V) → IsLinked b → IsLinked (declare_type t b)
  unfolding declare_type get_of set_of signal_of event_of names_of
  declare_type-IsLinked ty b h = record {
    reads = λ t k e. ground (arith, h.reads t k);
    writes = λ t k e. ground (arith, h.writes t k);
    fresh = λ t l. ground (arith, h.fresh t);
    paired = λ t. ground (arith, h.paired t);
    named = λ t q. ground (arith, h.named t q);
    notifies = λ k t e. ground (arith, h.notifies k t);
    known = λ q t e. ground (arith, h.known q t);
  }

  -- The containers do not change when a signal is declared.
  pub declare-containers :
      (t : ℕ) (name : String) (b : DataBroker V) → (declare t name b).1.containers ≡ b.containers
  unfolding declare alias on_signal add_name put declare_type make
  declare-containers t name b = ground arith
