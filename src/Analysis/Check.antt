-- ===== src/Analysis/Check.antt =====
-- libtatum/tatum/base/validate_timing_graph_constraints.cpp: what an analyzer checks when it is made.
use tatum.Prelude.{Bool, true, false, not, none, some, List, [], ◌∷◌}
use tatum.Result.{Result, ok, thrown, Message, throw_if, ◌>>=◌, ◌>>◌}
use tatum.Time.{Float}
use tatum.Graph.{TimingGraph, NodeId, source, opin, same_node_type, node_type, node_in_edges}
use tatum.Tags.Tag.{DomainId}
use tatum.Constraints.{TimingConstraints, clock_domain_source_node}
use tatum.Constraints.Io.{node_is_constant_generator}

module _ (F : Float) (tg : TimingGraph) (tc : TimingConstraints F) where
  -- A clock that is not virtual starts at a node of type SOURCE.
  pub check_clock_domain : DomainId → Result (Unit {0})
  check_clock_domain domain = do
    source_node ← clock_domain_source_node F tc domain
    elim source_node [
      | none ↦ ok tt
      | some n ↦ do
        type ← node_type tg (some n)
        throw_if (not (same_node_type type source)) (thrown Message.clock_not_source (some n) none)
    ]

  -- An OPIN without incoming edges is a constant generator.
  pub check_generator : NodeId → Result (Unit {0})
  check_generator node_id = do
    type ← node_type tg node_id
    elim (same_node_type type opin) [
      | false ↦ ok tt
      | true ↦ do
        ins ← node_in_edges tg node_id
        elim ins [
          | _ ∷ _ ↦ ok tt
          | [] ↦
              throw_if (not (node_is_constant_generator F tc node_id))
                (thrown Message.opin_not_generator node_id none)
        ]
    ]

  -- The two loops.
  pub check_clock_domains : List DomainId → Result (Unit {0})
  unfolding check_clock_domain
  check_clock_domains [] = ok tt
  check_clock_domains (domain ∷ domains) = do check_clock_domain domain; check_clock_domains domains

  pub check_generators : List NodeId → Result (Unit {0})
  unfolding check_generator
  check_generators [] = ok tt
  check_generators (node_id ∷ nodes) = do check_generator node_id; check_generators nodes

  pub validate_timing_graph_constraints : Result Bool
  unfolding check_clock_domains check_generators
  validate_timing_graph_constraints = do
    check_clock_domains tc.domain_ids
    check_generators tg.node_ids
    ok true
