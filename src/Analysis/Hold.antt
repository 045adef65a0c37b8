-- ===== src/Analysis/Hold.antt =====
-- libtatum/tatum/graph_visitors/HoldAnalysisOps.hpp: the operations of a hold analysis.
use tatum.Prelude.{true, false, not, ◌&&◌}
use tatum.Result.{Result, ok, check, ◌>>=◌, ◌>>◌}
use tatum.Time.{Float}
use tatum.Graph.{
  TimingGraph, EdgeId, sink, cpin, same_node_type, node_type, edge_src_node, edge_sink_node,
}
use tatum.Tags
use tatum.Tags.Tag.{const_gen_tag_hold}
use tatum.Constraints.{DelayType, early, late, hold_constraint, hold_clock_uncertainty}
use tatum.Constraints.Io.{source_latency, input_constraint, input_constraints, output_constraint}
use tatum.Analysis.{AnalysisOps, DelayCalculator, ge}

module _ (F : Float) where
  -- data_edge_delay and launch_clock_edge_delay: the delay is not negative.
  unfoldable pub min_delay : DelayCalculator F → TimingGraph → EdgeId → Result F.Scalar
  min_delay dc tg edge_id = do
    let delay = dc.min_edge_delay tg edge_id
    check (ge F delay F.zero_time)
    ok delay

  -- The hold time is placed on the clock path, as a positive value.
  unfoldable pub hold_capture_delay : DelayCalculator F → TimingGraph → EdgeId → Result F.Scalar
  unfolding min_delay
  hold_capture_delay dc tg edge_id = do
    src_node ← edge_src_node tg edge_id
    sink_node ← edge_sink_node tg edge_id
    src_type ← node_type tg src_node
    sink_type ← node_type tg sink_node
    elim (same_node_type src_type cpin && same_node_type sink_type sink) [
      | true ↦ do let thld = dc.hold_time tg edge_id; check (not (F.is_nan thld)); ok thld
      | false ↦ min_delay dc tg edge_id
    ]

  abbrev pub hold_ops : AnalysisOps F
  hold_ops = record {
    clock_constraint = hold_constraint F;
    clock_uncertainty = λ tc src_id sink_id. hold_clock_uncertainty F tc src_id sink_id;
    launch_source_latency = λ tc domain. source_latency F tc domain early;
    capture_source_latency = λ tc domain. source_latency F tc domain late;
    input_constraint = λ tc node domain. input_constraint F tc node domain DelayType.min;
    input_constraints = λ tc node. input_constraints F tc node DelayType.min;
    output_constraint = λ tc node domain. output_constraint F tc node domain DelayType.min;
    const_gen_tag = const_gen_tag_hold F;
    merge_req = Tags.max F;
    merge_arr = λ t time origin ref_tag. Tags.min F t time origin ref_tag false;
    data_edge_delay = min_delay;
    launch_clock_edge_delay = min_delay;
    capture_clock_edge_delay = hold_capture_delay;
    invalid_arrival_time = F.infinity;
    invalid_required_time = F.neg F.infinity;
    calculate_slack = λ required_time arrival_time. F.sub arrival_time required_time;
  }
