-- ===== src/Analysis/Required.antt =====
-- libtatum/tatum/graph_visitors/CommonAnalysisVisitor.hpp: the pre-traversal and the traversal that
-- propagate required times.
use tatum.Prelude.{Bool, true, false, [], ◌∷◌, if◌then◌else◌}
use tatum.Result.{Result, ok, check, ◌>>=◌, ◌>>◌, for_each}
use tatum.Container.{at}
use tatum.Time.{Float}
use tatum.Graph.{
  TimingGraph, NodeId, EdgeId, sink, cpin, same_node_type, node_type, node_out_edges, edge_disabled,
  edge_sink_node,
}
use tatum.Tags.{all_tags}
use tatum.Tags.Find.{is_constrained}
use tatum.Tags.Tag.{data_required}
use tatum.Analysis.{DelayCalculator, AnalysisOps, Tables, Step, get_tags, each_tag, skip, also}
use tatum.Analysis.Sink.{merge_req_tags}

module _ (F : Float) (ops : AnalysisOps F) (tg : TimingGraph) where
  unfoldable pub do_required_pre_traverse_node : NodeId → Tables F → Result Bool
  do_required_pre_traverse_node node_id s = do
    type ← node_type tg node_id
    check (same_node_type type sink)
    t ← at s.node_tags node_id
    tags ← all_tags F t
    ok (is_constrained F type tags)

  unfoldable pub do_required_traverse_edge :
      DelayCalculator F → NodeId → EdgeId → Tables F → Result (Step F)
  do_required_traverse_edge dc node_id edge_id s = do
    sink_node_id ← edge_sink_node tg edge_id
    tags ← get_tags F s sink_node_id data_required
    elim tags [
      | [] ↦ skip F s
      | first ∷ rest ↦ do
        edge_delay ← ops.data_edge_delay dc tg edge_id
        each_tag F (first ∷ rest)
            (λ tag. merge_req_tags F ops node_id (F.sub tag.time edge_delay) sink_node_id tag true)
            s
    ]

  -- One round of the loop over the out-edges.
  unfoldable pub required_round : DelayCalculator F → NodeId → EdgeId → Step F → Result (Step F)
  unfolding do_required_traverse_edge
  required_round dc node_id edge_id s = do
    disabled ← edge_disabled tg edge_id
    if disabled then ok s else also F (do_required_traverse_edge dc node_id edge_id) s

  -- Required times are not propagated through the clock network.
  unfoldable pub do_required_traverse_node : DelayCalculator F → NodeId → Tables F → Result (Step F)
  unfolding required_round for_each
  do_required_traverse_node dc node_id s = do
    type ← node_type tg node_id
    elim (same_node_type type cpin) [
      | true ↦ skip F s
      | false ↦ do
        out_edges ← node_out_edges tg node_id
        for_each out_edges (false, s) (required_round dc node_id)
    ]
