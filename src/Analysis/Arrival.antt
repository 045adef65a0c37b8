-- ===== src/Analysis/Arrival.antt =====
-- libtatum/tatum/graph_visitors/CommonAnalysisVisitor.hpp: the pre-traversal and the traversal that
-- propagate arrival times. The tags of an edge's source are read before those of its sink change.
use tatum.Prelude.{Bool, true, false, none, List, [], ◌∷◌, ◌==◌, if◌then◌else◌}
use tatum.Result.{Result, ok, check, ◌>>=◌, ◌>>◌, for_each}
use tatum.Container.{is_valid}
use tatum.Time.{Float, valid}
use tatum.Graph.{
  TimingGraph, NodeId, EdgeId, source, sink, same_node_type, node_type, node_in_edges,
  node_num_active_in_edges, edge_disabled, edge_src_node,
}
use tatum.Tags.Tag.{TimingTag, TagType, DomainId, clock_launch, clock_capture, data_arrival}
use tatum.Constraints.{TimingConstraints, node_is_clock_source, should_analyze}
use tatum.Constraints.Io.{node_is_constant_generator, node_clock_domain}
use tatum.Analysis.{
  DelayCalculator, AnalysisOps, Tables, Step, make_tag, in_node, get_tags, set_node_tag, each_tag,
  both, skip, also,
}
use tatum.Analysis.Guards.{
  is_clock_data_launch_edge, should_propagate_clock_launch_tags,
  should_propagate_clock_capture_tags, should_propagate_clocks, should_propagate_data,
}
use tatum.Analysis.Sink.{mark_sink_required_times}

module _ (F : Float) (ops : AnalysisOps F) where
  -- merge_arr_tags(node, time, origin, ref_tag)
  unfoldable pub merge_arr_tags :
      NodeId → F.Scalar → NodeId → TimingTag F → Tables F → Result (Step F)
  merge_arr_tags node time origin ref_tag s =
      in_node F s node (λ t. ops.merge_arr t time origin ref_tag)

  -- The loop over the launch domains that are analysed with the domain of a clock source. The Boolean
  -- says whether the node is constrained.
  unfoldable pub capture_tags :
      TimingConstraints F → NodeId → DomainId → List DomainId → Step F → Result (Step F)
  capture_tags tc node_id domain_id [] s = ok s
  capture_tags tc node_id domain_id (launch_domain_id ∷ domains) s = do
    analyze ← should_analyze F tc launch_domain_id domain_id none
    let clock_constraint = ops.clock_constraint tc launch_domain_id domain_id none
    let latency = ops.capture_source_latency tc domain_id
    let capture_tag =
        make_tag F (F.add latency clock_constraint) launch_domain_id domain_id none clock_capture
    s' ← elim analyze [
      | true ↦ set_node_tag F node_id capture_tag s.1 >>= λ r. ok (true, r.1)
      | false ↦ ok s
    ]
    capture_tags tc node_id domain_id domains s'

  -- A node that is the source of a clock.
  unfoldable pub pre_traverse_clock : TimingConstraints F → NodeId → Tables F → Result (Step F)
  unfolding capture_tags
  pre_traverse_clock tc node_id s = do
    domain_id ← node_clock_domain F tc node_id
    check (is_valid domain_id)
    let latency = ops.launch_source_latency tc domain_id
    launched ← set_node_tag F node_id (make_tag F latency domain_id none none clock_launch) s
    capture_tags tc node_id domain_id tc.domain_ids (false, launched.1)

  -- A primary input, which is unconstrained if it has no input constraint.
  unfoldable pub pre_traverse_input : TimingConstraints F → NodeId → Tables F → Result (Step F)
  unfolding merge_arr_tags
  pre_traverse_input tc node_id s = elim (ops.input_constraints tc node_id) [
    | [] ↦ skip F s
    | _ ∷ _ ↦ do
      domain_id ← node_clock_domain F tc node_id
      check (is_valid domain_id)
      let latency = ops.launch_source_latency tc domain_id
      let constraint = ops.input_constraint tc node_id domain_id
      check (valid F constraint)
      let input_tag = make_tag F (F.add latency constraint) domain_id none none data_arrival
      merged ← merge_arr_tags node_id input_tag.time input_tag.origin_node input_tag s
      ok (true, merged.1)
  ]

  -- The Boolean says whether the node is constrained.
  unfoldable pub do_arrival_pre_traverse_node :
      TimingGraph → TimingConstraints F → NodeId → Tables F → Result (Step F)
  unfolding pre_traverse_clock pre_traverse_input
  do_arrival_pre_traverse_node tg tc node_id s = do
    active ← node_num_active_in_edges tg node_id
    check (active == 0)
    type ← node_type tg node_id
    elim (node_is_constant_generator F tc node_id) [
      | true ↦ set_node_tag F node_id ops.const_gen_tag s >>= λ r. ok (true, r.1)
      | false ↦ do
        check (same_node_type type source)
        clock ← node_is_clock_source F tc node_id
        elim clock [
          | true ↦ pre_traverse_clock tc node_id s
          | false ↦ pre_traverse_input tc node_id s
        ]
    ]

  -- The tags of a type of an edge's source, merged into a node with a delay. `retag` makes the tag to
  -- merge, and `origin` is the node that it is said to come from. Without tags no delay is asked for.
  unfoldable pub propagate :
      Result F.Scalar
      → TagType
      → (TimingTag F → TimingTag F)
      → NodeId
      → NodeId
      → NodeId
      → Tables F
      → Result (Step F)
  unfolding each_tag merge_arr_tags
  propagate delay_of type retag origin src node s = do
    tags ← get_tags F s src type
    elim tags [
      | [] ↦ skip F s
      | first ∷ rest ↦ do
        delay ← delay_of
        each_tag F (first ∷ rest)
            (λ tag. merge_arr_tags node (F.add tag.time delay) origin (retag tag)) s
    ]

  -- if(guard) run
  abbrev pub guarded : Result Bool → (Tables F → Result (Step F)) → Tables F → Result (Step F)
  guarded guard run s = do b ← guard; if b then run s else skip F s

  module _ (tg : TimingGraph) (tc : TimingConstraints F) (dc : DelayCalculator F) where
    unfoldable pub do_arrival_traverse_edge : NodeId → EdgeId → Tables F → Result (Step F)
    unfolding propagate
    do_arrival_traverse_edge node_id edge_id s = do
      src ← edge_src_node tg edge_id
      let launch_delay = ops.launch_clock_edge_delay dc tg edge_id
      let capture_delay = ops.capture_clock_edge_delay dc tg edge_id
      let launch = propagate launch_delay clock_launch (λ tag. tag) src src node_id
      let capture = propagate capture_delay clock_capture (λ tag. tag) src src node_id
      let convert =
          propagate launch_delay clock_launch (λ tag. record tag { type = data_arrival }) none src
            node_id
      let data_tags =
          propagate (ops.data_edge_delay dc tg edge_id) data_arrival (λ tag. tag) src src node_id
      let clocks =
          both F (guarded (should_propagate_clock_launch_tags tg edge_id) launch)
            (guarded (should_propagate_clock_capture_tags tg edge_id) capture)
      both F (guarded (should_propagate_clocks F tg tc edge_id) clocks)
          (both F (guarded (is_clock_data_launch_edge tg edge_id) convert)
            (guarded (should_propagate_data tg edge_id) data_tags))
          s

    -- One round of the loop over the in-edges.
    unfoldable pub arrival_round : NodeId → EdgeId → Step F → Result (Step F)
    unfolding do_arrival_traverse_edge
    arrival_round node_id edge_id s = do
      disabled ← edge_disabled tg edge_id
      if disabled then ok s else also F (do_arrival_traverse_edge node_id edge_id) s

    unfoldable pub do_arrival_traverse_node : NodeId → Tables F → Result (Step F)
    unfolding arrival_round for_each
    do_arrival_traverse_node node_id s = do
      in_edges ← node_in_edges tg node_id
      pulled ← for_each in_edges (false, s) (arrival_round node_id)
      type ← node_type tg node_id
      if same_node_type type sink
          then also F (mark_sink_required_times F ops tg tc dc node_id) pulled
          else ok pulled
