-- ===== src/Analysis/Setup.antt =====
-- libtatum/tatum/graph_visitors/SetupAnalysisOps.hpp: the operations of a setup analysis.
use tatum.Prelude.{true, false, not, ◌&&◌}
use tatum.Result.{Result, ok, check, ◌>>=◌, ◌>>◌}
use tatum.Time.{Float}
use tatum.Graph.{
  TimingGraph, EdgeId, sink, cpin, same_node_type, node_type, edge_src_node, edge_sink_node,
}
use tatum.Tags
use tatum.Tags.Tag.{const_gen_tag_setup}
use tatum.Constraints.{DelayType, early, late, setup_constraint, setup_clock_uncertainty}
use tatum.Constraints.Io.{source_latency, input_constraint, input_constraints, output_constraint}
use tatum.Analysis.{AnalysisOps, DelayCalculator, ge}

module _ (F : Float) where
  -- data_edge_delay and launch_clock_edge_delay: the delay is not negative.
  unfoldable pub max_delay : DelayCalculator F → TimingGraph → EdgeId → Result F.Scalar
  max_delay dc tg edge_id = do
    let delay = dc.max_edge_delay tg edge_id
    check (ge F delay F.zero_time)
    ok delay

  -- The setup time is placed on the clock path, so it is returned as a negative value.
  unfoldable pub setup_capture_delay : DelayCalculator F → TimingGraph → EdgeId → Result F.Scalar
  unfolding max_delay
  setup_capture_delay dc tg edge_id = do
    src_node ← edge_src_node tg edge_id
    sink_node ← edge_sink_node tg edge_id
    src_type ← node_type tg src_node
    sink_type ← node_type tg sink_node
    elim (same_node_type src_type cpin && same_node_type sink_type sink) [
      | true ↦ do let tsu = dc.setup_time tg edge_id; check (not (F.is_nan tsu)); ok (F.neg tsu)
      | false ↦ max_delay dc tg edge_id
    ]

  abbrev pub setup_ops : AnalysisOps F
  setup_ops = record {
    clock_constraint = setup_constraint F;
    clock_uncertainty = λ tc src_id sink_id. F.neg (setup_clock_uncertainty F tc src_id sink_id);
    launch_source_latency = λ tc domain. source_latency F tc domain late;
    capture_source_latency = λ tc domain. source_latency F tc domain early;
    input_constraint = λ tc node domain. input_constraint F tc node domain DelayType.max;
    input_constraints = λ tc node. input_constraints F tc node DelayType.max;
    output_constraint = λ tc node domain. output_constraint F tc node domain DelayType.max;
    const_gen_tag = const_gen_tag_setup F;
    merge_req = Tags.min F;
    merge_arr = λ t time origin ref_tag. Tags.max F t time origin ref_tag false;
    data_edge_delay = max_delay;
    launch_clock_edge_delay = max_delay;
    capture_clock_edge_delay = setup_capture_delay;
    invalid_arrival_time = F.neg F.infinity;
    invalid_required_time = F.infinity;
    calculate_slack = λ required_time arrival_time. F.sub required_time arrival_time;
  }
