-- ===== src/Analysis/Slack.antt =====
-- libtatum/tatum/graph_visitors/CommonAnalysisVisitor.hpp: the slacks of the edges and of the nodes.
use tatum.Prelude.{true, false, List, if◌then◌else◌}
use tatum.Result.{Result, ◌>>=◌, for_each}
use tatum.Time.{Float}
use tatum.Graph.{TimingGraph, NodeId, EdgeId, node_in_edges, edge_src_node, edge_sink_node}
use tatum.Tags.Tag.{TimingTag, data_arrival, data_required}
use tatum.Analysis.{
  DelayCalculator, AnalysisOps, Tables, Step, get_tags, each_tag, skip, also, merge_node_slack,
  merge_edge_slack,
}
use tatum.Analysis.Guards.{
  should_calculate_slack, is_clock_data_launch_edge, is_clock_data_capture_edge,
}

module _ (F : Float) (ops : AnalysisOps F) where
  -- The two loops over the pairs of an arrival and a required tag of one launch domain.
  unfoldable pub slack_pairs :
      List (TimingTag F)
      → List (TimingTag F)
      → (TimingTag F → TimingTag F → Tables F → Result (Step F))
      → Tables F
      → Result (Step F)
  slack_pairs arr_tags req_tags merge = each_tag F arr_tags (λ arr_tag.
      each_tag F req_tags (λ req_tag s.
        if should_calculate_slack F arr_tag req_tag then merge arr_tag req_tag s else skip F s))

  unfoldable pub slack_delay : DelayCalculator F → TimingGraph → EdgeId → Result F.Scalar
  slack_delay dc tg edge = do
    launch ← is_clock_data_launch_edge tg edge
    elim launch [
      | true ↦ ops.launch_clock_edge_delay dc tg edge
      | false ↦ do
        capture ← is_clock_data_capture_edge tg edge
        elim capture [
          | true ↦ ops.capture_clock_edge_delay dc tg edge
          | false ↦ ops.data_edge_delay dc tg edge
        ]
    ]

  unfoldable pub do_slack_traverse_edge :
      TimingGraph → DelayCalculator F → EdgeId → Tables F → Result (Step F)
  unfolding slack_pairs slack_delay
  do_slack_traverse_edge tg dc edge s = do
    src_node ← edge_src_node tg edge
    sink_node ← edge_sink_node tg edge
    arr_tags ← get_tags F s src_node data_arrival
    req_tags ← get_tags F s sink_node data_required
    edge_delay ← slack_delay dc tg edge
    slack_pairs arr_tags req_tags
        (λ arr_tag req_tag.
          merge_edge_slack F edge (F.sub (F.sub req_tag.time arr_tag.time) edge_delay) req_tag)
        s

  unfoldable pub do_slack_traverse_node :
      TimingGraph → DelayCalculator F → NodeId → Tables F → Result (Step F)
  unfolding do_slack_traverse_edge for_each slack_pairs
  do_slack_traverse_node tg dc node s = do
    in_edges ← node_in_edges tg node
    edges ← for_each in_edges (false, s) (λ edge. also F (do_slack_traverse_edge tg dc edge))
    arr_tags ← get_tags F edges.1 node data_arrival
    req_tags ← get_tags F edges.1 node data_required
    also F
        (slack_pairs arr_tags req_tags (λ arr_tag req_tag.
          merge_node_slack F node (ops.calculate_slack req_tag.time arr_tag.time) req_tag))
        edges
