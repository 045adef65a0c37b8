-- ===== src/Analysis/Visitor.antt =====
-- libtatum/tatum/graph_visitors/GraphVisitor.hpp: what a walker asks of an analysis, and its three
-- implementations: SetupAnalysis.hpp, HoldAnalysis.hpp and SetupHoldAnalysis.hpp.
use tatum.Prelude.{Bool, false, ◌||◌}
use tatum.Result.{Result, ok, ◌>>=◌}
use tatum.Time.{Float}
use tatum.Graph.{TimingGraph, NodeId, EdgeId}
use tatum.Constraints.{TimingConstraints}
use tatum.Analysis.{DelayCalculator, AnalysisOps, Tables, reset_node, reset_edge}
use tatum.Analysis.Setup.{setup_ops}
use tatum.Analysis.Hold.{hold_ops}
use tatum.Analysis.Arrival.{do_arrival_pre_traverse_node, do_arrival_traverse_node}
use tatum.Analysis.Required.{do_required_pre_traverse_node, do_required_traverse_node}
use tatum.Analysis.Slack.{do_slack_traverse_node}
use tatum.Analysis.Reset.{
  do_reset_node_arrival_tags, do_reset_node_required_tags, do_reset_node_slack_tags,
  do_reset_node_arrival_tags_from_origin, do_reset_node_required_tags_from_origin,
}

-- A visitor with the state `S`. A traversal also returns whether it changed the node, and a
-- pre-traversal whether the node is constrained.
pub record GraphVisitor (F : Float) (S : Type 0) : Type 0 where
  pub reset_node : NodeId → S → Result S
  pub reset_edge : EdgeId → S → Result S
  pub reset_node_arrival_tags : NodeId → S → Result S
  pub reset_node_required_tags : NodeId → S → Result S
  pub reset_node_slack_tags : NodeId → S → Result S
  pub reset_node_arrival_tags_from_origin : NodeId → NodeId → S → Result S
  pub reset_node_required_tags_from_origin : NodeId → NodeId → S → Result S
  pub arrival_pre_traverse_node : TimingGraph → TimingConstraints F → NodeId → S → Result (Bool × S)
  pub required_pre_traverse_node :
      TimingGraph → TimingConstraints F → NodeId → S → Result (Bool × S)
  pub arrival_traverse_node :
      TimingGraph → TimingConstraints F → DelayCalculator F → NodeId → S → Result (Bool × S)
  pub required_traverse_node :
      TimingGraph → TimingConstraints F → DelayCalculator F → NodeId → S → Result (Bool × S)
  pub slack_traverse_node : TimingGraph → DelayCalculator F → NodeId → S → Result (Bool × S)

module _ (F : Float) where
  -- CommonAnalysisVisitor over the operations of an analysis.
  abbrev pub visitor_of : AnalysisOps F → GraphVisitor F (Tables F)
  visitor_of ops = record {
    reset_node = reset_node F;
    reset_edge = reset_edge F;
    reset_node_arrival_tags = do_reset_node_arrival_tags F ops;
    reset_node_required_tags = do_reset_node_required_tags F ops;
    reset_node_slack_tags = do_reset_node_slack_tags F ops;
    reset_node_arrival_tags_from_origin = do_reset_node_arrival_tags_from_origin F ops;
    reset_node_required_tags_from_origin = do_reset_node_required_tags_from_origin F ops;
    arrival_pre_traverse_node = do_arrival_pre_traverse_node F ops;
    required_pre_traverse_node = λ tg tc node_id s.
        do_required_pre_traverse_node F ops tg node_id s >>= λ constrained. ok (constrained, s);
    arrival_traverse_node = do_arrival_traverse_node F ops;
    required_traverse_node = λ tg tc dc. do_required_traverse_node F ops tg dc;
    slack_traverse_node = do_slack_traverse_node F ops;
  }

  abbrev pub setup_visitor : GraphVisitor F (Tables F)
  setup_visitor = visitor_of (setup_ops F)

  abbrev pub hold_visitor : GraphVisitor F (Tables F)
  hold_visitor = visitor_of (hold_ops F)

  module _ {S T : Type 0} where
    -- Both visitors, one after the other.
    abbrev pub reset_both : (S → Result S) → (T → Result T) → S × T → Result (S × T)
    reset_both setup hold s = do a ← setup s.0; b ← hold s.1; ok (a, b)

    abbrev pub traverse_both :
        (S → Result (Bool × S)) → (T → Result (Bool × T)) → S × T → Result (Bool × (S × T))
    traverse_both setup hold s = do a ← setup s.0; b ← hold s.1; ok (a.0 || b.0, (a.1, b.1))

    -- SetupHoldAnalysis
    abbrev pub both_visitors : GraphVisitor F S → GraphVisitor F T → GraphVisitor F (S × T)
    both_visitors a b = record {
      reset_node = λ id. reset_both (a.reset_node id) (b.reset_node id);
      reset_edge = λ id. reset_both (a.reset_edge id) (b.reset_edge id);
      reset_node_arrival_tags =
          λ id. reset_both (a.reset_node_arrival_tags id) (b.reset_node_arrival_tags id);
      reset_node_required_tags =
          λ id. reset_both (a.reset_node_required_tags id) (b.reset_node_required_tags id);
      reset_node_slack_tags =
          λ id. reset_both (a.reset_node_slack_tags id) (b.reset_node_slack_tags id);
      reset_node_arrival_tags_from_origin = λ id origin.
          reset_both (a.reset_node_arrival_tags_from_origin id origin)
            (b.reset_node_arrival_tags_from_origin id origin);
      reset_node_required_tags_from_origin = λ id origin.
          reset_both (a.reset_node_required_tags_from_origin id origin)
            (b.reset_node_required_tags_from_origin id origin);
      arrival_pre_traverse_node = λ tg tc id.
          traverse_both (a.arrival_pre_traverse_node tg tc id)
            (b.arrival_pre_traverse_node tg tc id);
      required_pre_traverse_node = λ tg tc id.
          traverse_both (a.required_pre_traverse_node tg tc id)
            (b.required_pre_traverse_node tg tc id);
      arrival_traverse_node = λ tg tc dc id.
          traverse_both (a.arrival_traverse_node tg tc dc id) (b.arrival_traverse_node tg tc dc id);
      required_traverse_node = λ tg tc dc id.
          traverse_both (a.required_traverse_node tg tc dc id)
            (b.required_traverse_node tg tc dc id);
      slack_traverse_node = λ tg dc id.
          traverse_both (a.slack_traverse_node tg dc id) (b.slack_traverse_node tg dc id);
    }

  abbrev pub setup_hold_visitor : GraphVisitor F (Tables F × Tables F)
  setup_hold_visitor = both_visitors setup_visitor hold_visitor

  -- A visitor that does nothing.
  abbrev pub idle_visitor : {S : Type 0} → GraphVisitor F S
  idle_visitor = record {
    reset_node = λ id. ok;
    reset_edge = λ id. ok;
    reset_node_arrival_tags = λ id. ok;
    reset_node_required_tags = λ id. ok;
    reset_node_slack_tags = λ id. ok;
    reset_node_arrival_tags_from_origin = λ id origin. ok;
    reset_node_required_tags_from_origin = λ id origin. ok;
    arrival_pre_traverse_node = λ tg tc id s. ok (false, s);
    required_pre_traverse_node = λ tg tc id s. ok (false, s);
    arrival_traverse_node = λ tg tc dc id s. ok (false, s);
    required_traverse_node = λ tg tc dc id s. ok (false, s);
    slack_traverse_node = λ tg dc id s. ok (false, s);
  }

  -- setup_visitor() and hold_visitor() of a SetupHoldAnalysis, as visitors of the whole.
  abbrev pub setup_part : GraphVisitor F (Tables F × Tables F)
  setup_part = both_visitors setup_visitor idle_visitor

  abbrev pub hold_part : GraphVisitor F (Tables F × Tables F)
  hold_part = both_visitors idle_visitor hold_visitor
