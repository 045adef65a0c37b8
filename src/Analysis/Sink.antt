-- ===== src/Analysis/Sink.antt =====
-- libtatum/tatum/graph_visitors/CommonAnalysisVisitor.hpp: mark_sink_required_times.
use tatum.Prelude.{Bool, true, false, ◌&&◌, none, List, if◌then◌else◌}
use tatum.Result.{Result, check, ◌>>=◌, ◌>>◌}
use tatum.Container.{is_valid, same_id}
use tatum.Time.{Float, valid}
use tatum.Graph.{
  TimingGraph, NodeId, sink, same_node_type, node_type, node_clock_capture_edge, edge_src_node,
}
use tatum.Tags.Tag.{
  TimingTag, DomainId, clock_capture, data_arrival, data_required, is_const_gen_tag,
}
use tatum.Constraints.{TimingConstraints, should_analyze}
use tatum.Constraints.Io.{node_clock_domain}
use tatum.Analysis.{
  DelayCalculator, AnalysisOps, Tables, Step, make_tag, in_node, get_tags, each_tag, skip,
}

module _ (F : Float) (ops : AnalysisOps F) where
  -- merge_req_tags(node, time, origin, ref_tag, arrival_must_be_valid)
  unfoldable pub merge_req_tags :
      NodeId → F.Scalar → NodeId → TimingTag F → Bool → Tables F → Result (Step F)
  merge_req_tags node time origin ref_tag arrival_must_be_valid s =
      in_node F s node (λ t. ops.merge_req t time origin ref_tag arrival_must_be_valid)

  -- merge_req_tags(node, ref_tag), with a new required tag.
  unfoldable pub require : NodeId → F.Scalar → DomainId → DomainId → Tables F → Result (Step F)
  unfolding merge_req_tags
  require node_id req_time launch capture s = do
    let tag = make_tag F req_time launch capture none data_required
    merge_req_tags node_id tag.time tag.origin_node tag false s

  -- The launch domain of an arrival tag; that of a constant generator's is given.
  abbrev pub launch_domain_of : TimingTag F → DomainId → DomainId
  launch_domain_of tag otherwise =
      if is_const_gen_tag F tag then otherwise else tag.launch_clock_domain

  module _ (tc : TimingConstraints F) (node_id : NodeId) where
    -- A capture clock tag of a flip-flop with an arrival tag of its data pin.
    unfoldable pub capture_data : F.Scalar → TimingTag F → TimingTag F → Tables F → Result (Step F)
    unfolding require
    capture_data capture_edge_delay clock_tag data_tag s = do
      let launch = launch_domain_of data_tag clock_tag.capture_clock_domain
      let capture = clock_tag.capture_clock_domain
      analyze ← should_analyze F tc launch capture node_id
      elim (same_id launch clock_tag.launch_clock_domain && analyze) [
        | false ↦ skip F s
        | true ↦ do
          check (valid F data_tag.time)
          let offset =
              F.sub (ops.clock_constraint tc launch capture node_id)
                (ops.clock_constraint tc launch capture none)
          let clock_uncertainty = ops.clock_uncertainty tc launch capture
          let req_time =
              F.add (F.add (F.add clock_tag.time offset) capture_edge_delay) clock_uncertainty
          require node_id req_time launch capture s
      ]

    -- The two loops of a sink with a clock capture edge.
    unfoldable pub capture_at :
        F.Scalar → List (TimingTag F) → List (TimingTag F) → Tables F → Result (Step F)
    unfolding capture_data each_tag
    capture_at capture_edge_delay clock_tags data_tags =
        each_tag F clock_tags
          (λ clock_tag. each_tag F data_tags (capture_data capture_edge_delay clock_tag))

    -- An arrival tag of a primary output.
    unfoldable pub output_data :
        DomainId → F.Scalar → F.Scalar → TimingTag F → Tables F → Result (Step F)
    unfolding require
    output_data io_capture_domain output_constraint latency data_tag s = do
      let launch = launch_domain_of data_tag io_capture_domain
      analyze ← should_analyze F tc launch io_capture_domain node_id
      elim analyze [
        | false ↦ skip F s
        | true ↦ do
          check (valid F data_tag.time)
          let constraint = ops.clock_constraint tc launch io_capture_domain node_id
          let clock_uncertainty = ops.clock_uncertainty tc launch io_capture_domain
          let req_time =
              F.add (F.add (F.add constraint latency) output_constraint) clock_uncertainty
          require node_id req_time launch io_capture_domain s
      ]

    -- A sink without a clock capture edge, which may be unconstrained.
    unfoldable pub output_at : List (TimingTag F) → Tables F → Result (Step F)
    unfolding output_data each_tag
    output_at data_tags s = do
      io_capture_domain ← node_clock_domain F tc node_id
      let output_constraint = F.neg (ops.output_constraint tc node_id io_capture_domain)
      let latency = ops.capture_source_latency tc io_capture_domain
      if is_valid io_capture_domain && valid F output_constraint
          then each_tag F data_tags (output_data io_capture_domain output_constraint latency) s
          else skip F s

  unfoldable pub mark_sink_required_times :
      TimingGraph → TimingConstraints F → DelayCalculator F → NodeId → Tables F → Result (Step F)
  unfolding capture_at output_at
  mark_sink_required_times tg tc dc node_id s = do
    type ← node_type tg node_id
    check (same_node_type type sink)
    data_tags ← get_tags F s node_id data_arrival
    clock_capture_edge ← node_clock_capture_edge tg node_id
    elim (is_valid clock_capture_edge) [
      | true ↦ do
        src_node_id ← edge_src_node tg clock_capture_edge
        clock_tags ← get_tags F s src_node_id clock_capture
        delay ← ops.capture_clock_edge_delay dc tg clock_capture_edge
        capture_at tc node_id delay clock_tags data_tags s
      | false ↦ output_at tc node_id data_tags s
    ]
