-- ===== src/Engine/Components/Termination.antt =====
-- That the resolution of components ends: engine/src/simulation_state_connect.cpp.
use cloe.Prelude.{
  ℕ, zero, suc, ◌+◌, ◌≤◌, ◌<◌, ◌≡◌, ◌≢◌, refl, Bool, true, false, Option, none, some, List, [], ◌∷◌,
  String, length, ◌==◌, if◌then◌else◌, eq_iff, arith,
}
use cloe.Engine.Components.{
  ComponentConf, Configured, ComponentsOutcome, complete, failed, out_of_fuel, is_among, missing,
  set_component, make_pass, report_missing, report_or, resolve_components, count_done, count_key,
}

count_done-set_component :
    (cs : List ComponentConf) (c : ComponentConf) (p : Configured)
    → is_among c.key p.configured ≡ false
    → count_done cs (set_component c p) ≡ count_done cs p + count_key c.key cs
unfolding count_done count_key set_component
count_done-set_component [] c p e = refl
count_done-set_component (d ∷ ds) c p e =
    ground (arith, count_done-set_component ds c p e, eq_iff c.key d.key)

count_done-le : (cs : List ComponentConf) (p : Configured) → count_done cs p ≤ length cs
unfolding count_done
count_done-le [] p = omega arith
count_done-le (c ∷ cs) p = ground (arith, count_done-le cs p)

report-ends : (cs : List ComponentConf) (p : Configured) → report_missing cs p ≢ some out_of_fuel
unfolding report_missing
report-ends [] p e = cc
report-ends (c ∷ cs) p e = ground (arith, report-ends cs p)

module _ (makes : ComponentConf → Bool) where
  -- A pass marks no component twice, and none that is not configured.
  Marks : List ComponentConf → Configured → Option Configured → Type 0
  Marks cs p none = Unit
  Marks cs p (some p₁) =
      (count_done cs p₁ ≡ length p₁.configured) × (length p.configured ≤ length p₁.configured)

  widen :
      (cs : List ComponentConf) (p p₁ : Configured) (o : Option Configured)
      → length p.configured ≤ length p₁.configured
      → Marks cs p₁ o
      → Marks cs p o
  unfolding Marks
  widen cs p p₁ none l h = tt
  widen cs p p₁ (some p₂) l h = (h.0, omega (arith, l, h.1))

  pass_on :
      (cs ds : List ComponentConf) (d : ComponentConf) (p : Configured) (b m : Bool)
      (o : Option String)
      → Marks cs p (make_pass makes ds p)
      → (b ≡ false → Marks cs p (make_pass makes ds (set_component d p)))
      → Marks cs p (
          if b then make_pass makes ds p else elim o [
            | (some name) ↦ make_pass makes ds p
            | none ↦ if m then make_pass makes ds (set_component d p) else none
          ])
  unfolding Marks
  pass_on cs ds d p true m o h k = h
  pass_on cs ds d p false m (some name) h k = h
  pass_on cs ds d p false true none h k = k refl
  pass_on cs ds d p false false none h k = tt

  make_pass-Marks :
      (cs ds : List ComponentConf) (p : Configured)
      → ((q : String) → count_key q cs ≤ 1)
      → ((q : String) → count_key q ds ≤ count_key q cs)
      → count_done cs p ≡ length p.configured
      → Marks cs p (make_pass makes ds p)
  unfolding make_pass Marks count_key set_component
  make_pass-Marks cs [] p once part e = (e, omega arith)
  make_pass-Marks cs (d ∷ ds) p once part e =
      let part₁ : (q : String) → count_key q ds ≤ count_key q cs = λ q. omega (arith, part q) in
      let p₁ = set_component d p in
      pass_on cs ds d p (is_among d.key p.configured) (makes d) (missing d.from p.components)
        (make_pass-Marks cs ds p once part₁ e)
        (λ new. widen cs p p₁ (make_pass makes ds p₁) (omega arith) (
          make_pass-Marks cs ds p₁ once part₁ (
            ground (
              arith,
              count_done-set_component cs d p new,
              once d.key,
              part d.key,
              eq_iff d.key d.key,
              e,
            ))))

  -- What a pass leaves that has configured nothing: it has changed nothing, and there is a report
  -- unless all is done.
  Stuck : List ComponentConf → Configured → Option Configured → Type 0
  Stuck ds p none = Unit
  Stuck ds p (some p₁) =
      (length p.configured ≤ length p₁.configured)
      × (length p₁.configured ≡ length p.configured
          → (p₁ ≡ p) × (report_missing ds p ≡ none → count_done ds p ≡ length ds))

  Stuck-skip :
      (ds : List ComponentConf) (d : ComponentConf) (p : Configured) (o : Option Configured)
      → (report_missing (d ∷ ds) p ≡ none
          → (report_missing ds p ≡ none) × (is_among d.key p.configured ≡ true))
      → Stuck ds p o
      → Stuck (d ∷ ds) p o
  unfolding Stuck count_done
  Stuck-skip ds d p none f h = tt
  Stuck-skip ds d p (some p₁) f h =
      (h.0, λ e. ((h.1 e).0, λ r. ground (arith, (h.1 e).1 (f r).0, (f r).1)))

  Stuck-made :
      (ds : List ComponentConf) (d : ComponentConf) (p : Configured) (o : Option Configured)
      → Stuck ds (set_component d p) o
      → Stuck (d ∷ ds) p o
  unfolding Stuck set_component
  Stuck-made ds d p none h = tt
  Stuck-made ds d p (some p₁) h = (omega (arith, h.0), λ e. absurd (omega (arith, h.0, e)))

  Stuck-on :
      (ds : List ComponentConf) (d : ComponentConf) (p : Configured) (b m : Bool)
      (o : Option String)
      → is_among d.key p.configured ≡ b
      → missing d.from p.components ≡ o
      → Stuck ds p (make_pass makes ds p)
      → Stuck ds (set_component d p) (make_pass makes ds (set_component d p))
      → Stuck (d ∷ ds) p (
          if b then make_pass makes ds p else elim o [
            | (some name) ↦ make_pass makes ds p
            | none ↦ if m then make_pass makes ds (set_component d p) else none
          ])
  unfolding Stuck report_missing missing
  Stuck-on ds d p true m o e f h k =
      Stuck-skip ds d p (make_pass makes ds p) (λ r. (ground arith, e)) h
  Stuck-on ds d p false m (some name) e f h k =
      Stuck-skip ds d p (make_pass makes ds p) (λ r. absurd (ground arith)) h
  Stuck-on ds d p false true none e f h k =
      Stuck-made ds d p (make_pass makes ds (set_component d p)) k
  Stuck-on ds d p false false none e f h k = tt

  make_pass-Stuck : (ds : List ComponentConf) (p : Configured) → Stuck ds p (make_pass makes ds p)
  unfolding make_pass Stuck count_done
  make_pass-Stuck [] p = (omega arith, λ e. (refl, λ r. refl))
  make_pass-Stuck (d ∷ ds) p =
      Stuck-on ds d p (is_among d.key p.configured) (makes d) (missing d.from p.components) refl
        refl (make_pass-Stuck ds p) (make_pass-Stuck ds (set_component d p))

  round_on :
      (cs : List ComponentConf) (p : Configured) (o : Option Configured)
      → (f : Configured → ComponentsOutcome) → Marks cs p o
      → Stuck cs p o
      → count_done cs p ≡ length p.configured
      → ((p₁ : Configured)
          → count_done cs p₁ ≡ length p₁.configured
          → length p.configured < length p₁.configured
          → f p₁ ≢ out_of_fuel)
      → (if length p.configured == length cs then complete p else elim o [
        | none ↦ failed
        | (some p₁) ↦
            (let again = f p₁ in
              if length p₁.configured == length p.configured
              then report_or (report_missing cs p₁) again
              else again)
      ])
        ≢ out_of_fuel
  unfolding Marks Stuck
  round_on cs p none f h s e k q = ground arith
  round_on cs p (some p₁) f h s e k q =
      ground (arith, s, h.0, h.1, k p₁ h.0, report-ends cs p₁, count_done-le cs p)

  -- If no two components have the same key, and those that are configured are as many as have
  -- been marked, the loop ends after as many rounds as there are components to make, and one
  -- more: each round makes a component, throws, or reports an input that is missing.
  pub resolve_components-ends :
      (fuel : ℕ) (cs : List ComponentConf) (p : Configured)
      → ((q : String) → count_key q cs ≤ 1)
      → count_done cs p ≡ length p.configured
      → length cs < fuel + length p.configured
      → resolve_components makes fuel cs p ≢ out_of_fuel
  unfolding resolve_components
  resolve_components-ends zero cs p once e l q = ground (arith, count_done-le cs p)
  resolve_components-ends (suc fuel) cs p once e l q =
      round_on cs p (make_pass makes cs p) (resolve_components makes fuel cs)
        (make_pass-Marks cs cs p once (λ k. omega arith) e) (make_pass-Stuck cs p) e
        (λ p₁ e₁ more. resolve_components-ends fuel cs p₁ once e₁ (omega (arith, more, l))) q
