-- ===== src/Constraints/Examples.antt =====
-- Setup constraints between two domains.
use tatum.Prelude.{ℕ, zero, suc, ◌≡◌, refl, arith, none, some, [], ◌∷◌, get_elem?}
use tatum.Result.{ok}
use tatum.Tags.Tag.{DomainId}
use tatum.Time.Model.{finite, extended}
use tatum.Constraints.Clocks.{HasDomains, Creates, create_clock_domain-Creates}
use tatum.Constraints.Io.{
  input_constraint, output_constraint, set_input_constraint, set_output_constraint,
}
use tatum.Constraints.Io.Update.{
  set_input_constraint-input_constraint, set_output_constraint-output_constraint,
}
use tatum.Constraints.{
  DelayType, create_clock_domain, TimingConstraints, setup_constraint, set_setup_constraint, key,
}
use tatum.Constraints.Maps.{lookup}
use tatum.Constraints.Lookup.{
  set_setup_constraint-same, set_setup_constraint-fallback, set_setup_constraint-other,
}

abbrev pub clocks : TimingConstraints extended
clocks = record {
  domain_ids = some 0 ∷ some 1 ∷ [];
  domain_names = (97 ∷ []) ∷ (98 ∷ []) ∷ [];
  domain_sources = none ∷ none ∷ [];
  constant_generators = [];
  setup_constraints = (key (some 0) (some 1) (some 5), finite 7) ∷ [];
  hold_constraints = [];
  setup_clock_uncertainties = [];
  hold_clock_uncertainties = [];
  max_input_constraints = [];
  min_input_constraints = [];
  max_output_constraints = [];
  min_output_constraints = [];
  source_latencies_early = [];
  source_latencies_late = [];
}

set_setup_constraint-same_example :
    setup_constraint extended
      (set_setup_constraint extended clocks (some 0) (some 1) (some 5) (finite 3))
      (some 0)
      (some 1)
      (some 5)
    ≡ finite 3
set_setup_constraint-same_example =
    set_setup_constraint-same extended clocks (some 0) (some 1) (finite 3) (some 5)

set_setup_constraint-fallback_example :
    setup_constraint extended
      (set_setup_constraint extended clocks (some 0) (some 1) none (finite 3))
      (some 0)
      (some 1)
      (some 6)
    ≡ finite 3
unfolding lookup
set_setup_constraint-fallback_example =
    set_setup_constraint-fallback extended clocks (some 0) (some 1) (finite 3) 6 refl

set_setup_constraint-other_example :
    setup_constraint extended
      (set_setup_constraint extended clocks (some 0) (some 1) (some 6) (finite 3))
      (some 0)
      (some 1)
      (some 5)
    ≡ setup_constraint extended clocks (some 0) (some 1) (some 5)
set_setup_constraint-other_example =
    set_setup_constraint-other extended clocks (some 0) (some 1) (finite 3) 6 (some 0) (some 1)
      (some 5) refl

clocks-HasDomains : HasDomains clocks
clocks-HasDomains = record { numbered = numbered; names_size = refl; sources_size = refl }
  where
    numbered : (i : ℕ) (id : DomainId) → get_elem? clocks.domain_ids i ≡ some id → id ≡ some i
    numbered zero id e = cc
    numbered (suc zero) id e = cc
    numbered (suc (suc i)) id e = absurd cc

create_clock_domain-Creates_example :
    (id : DomainId) × (c' : TimingConstraints extended) × (create_clock_domain extended clocks
        (99 ∷ [])
      ≡ ok (id, c'))
    × Creates extended clocks (99 ∷ []) id c'
create_clock_domain-Creates_example =
    create_clock_domain-Creates extended clocks (99 ∷ []) clocks-HasDomains (omega arith)

set_input_constraint-input_constraint_example :
    input_constraint extended
      (set_input_constraint extended clocks (some 2) (some 0) DelayType.max (finite 3))
      (some 2)
      (some 0)
      DelayType.max
    ≡ finite 3
set_input_constraint-input_constraint_example =
    set_input_constraint-input_constraint extended (some 2) (some 2) (some 0) (some 0) (finite 3)
      clocks DelayType.max DelayType.max

set_output_constraint-output_constraint_example :
    output_constraint extended
      (set_output_constraint extended clocks (some 2) (some 0) DelayType.min (finite 3))
      (some 2)
      (some 0)
      DelayType.min
    ≡ finite 3
set_output_constraint-output_constraint_example =
    set_output_constraint-output_constraint extended (some 2) (some 2) (some 0) (some 0) (finite 3)
      clocks DelayType.min DelayType.min
