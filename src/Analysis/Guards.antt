-- ===== src/Analysis/Guards.antt =====
-- libtatum/tatum/graph_visitors/CommonAnalysisVisitor.hpp: along which edges tags are propagated.
use tatum.Prelude.{Bool, true, false, not, ◌&&◌, length, ◌==◌}
use tatum.Result.{Result, ok, check, ◌>>=◌, ◌>>◌}
use tatum.Container.{same_id}
use tatum.Time.{Float}
use tatum.Graph.{
  TimingGraph, NodeId, EdgeId, NodeType, source, sink, cpin, same_node_type, node_type,
  node_in_edges, edge_src_node, edge_sink_node,
}
use tatum.Tags.Tag.{TimingTag}
use tatum.Constraints.{TimingConstraints, node_is_clock_source}

-- The types of the two ends of an edge.
abbrev pub end_types : TimingGraph → EdgeId → Result (NodeType × NodeType)
end_types tg edge_id = do
  src ← edge_src_node tg edge_id
  snk ← edge_sink_node tg edge_id
  src_type ← node_type tg src
  sink_type ← node_type tg snk
  ok (src_type, sink_type)

unfoldable pub is_clock_data_launch_edge : TimingGraph → EdgeId → Result Bool
is_clock_data_launch_edge tg edge_id = do
  types ← end_types tg edge_id
  ok (same_node_type types.0 cpin && same_node_type types.1 source)

unfoldable pub is_clock_data_capture_edge : TimingGraph → EdgeId → Result Bool
is_clock_data_capture_edge tg edge_id = do
  types ← end_types tg edge_id
  ok (same_node_type types.0 cpin && same_node_type types.1 sink)

unfoldable pub should_propagate_clock_launch_tags : TimingGraph → EdgeId → Result Bool
unfolding is_clock_data_capture_edge
should_propagate_clock_launch_tags tg edge_id = do
  capture ← is_clock_data_capture_edge tg edge_id
  ok (not capture)

unfoldable pub should_propagate_clock_capture_tags : TimingGraph → EdgeId → Result Bool
should_propagate_clock_capture_tags tg edge_id = do
  snk ← edge_sink_node tg edge_id
  type ← node_type tg snk
  ok (not (same_node_type type sink))

unfoldable pub should_propagate_data : TimingGraph → EdgeId → Result Bool
should_propagate_data tg edge_id = do
  src ← edge_src_node tg edge_id
  type ← node_type tg src
  ok (not (same_node_type type cpin))

module _ (F : Float) where
  -- What is asserted of a clock source.
  abbrev pub check_clock_source : TimingGraph → NodeId → Bool → Result (Unit {0})
  check_clock_source tg id false = ok tt
  check_clock_source tg id true = do
    type ← node_type tg id
    check (same_node_type type source)
    es ← node_in_edges tg id
    check (length es == 0)

  unfoldable pub should_propagate_clocks : TimingGraph → TimingConstraints F → EdgeId → Result Bool
  should_propagate_clocks tg tc edge_id = do
    src_node_id ← edge_src_node tg edge_id
    sink_node_id ← edge_sink_node tg edge_id
    type ← node_type tg sink_node_id
    elim (same_node_type type source) [
      | true ↦ ok false
      | false ↦ do
        clock ← node_is_clock_source F tc src_node_id
        check_clock_source tg src_node_id clock
        ok true
    ]

  abbrev pub should_calculate_slack : TimingTag F → TimingTag F → Bool
  should_calculate_slack src_tag sink_tag =
      same_id src_tag.launch_clock_domain sink_tag.launch_clock_domain
