-- ===== src/Analysis/Halts/Pull.antt =====
-- The arrival traversals of libtatum/tatum/graph_visitors/CommonAnalysisVisitor.hpp need no fuel.
use tatum.Prelude.{Bool, true, false, ◌==◌, none, List, [], ◌∷◌}
use tatum.Result.{Result, ok}
use tatum.Result.Halts.{
  Halts, Halts-ok, Halts-if, Halts-bind, Halts-branch, Halts-empty, Halts-check, Halts-at,
  halts_rules,
}
use tatum.Container.{is_valid}
use tatum.Time.{Float, valid}
use tatum.Graph.{
  TimingGraph, NodeId, EdgeId, source, same_node_type, edge_src_node, edge_sink_node, node_type,
  node_num_active_in_edges,
}
use tatum.Tags.Tag.{TimingTag, TagType, DomainId}
use tatum.Constraints.{TimingConstraints, should_analyze, node_is_clock_source}
use tatum.Constraints.Io.{node_clock_domain, node_is_constant_generator}
use tatum.Analysis.{AnalysisOps, Tables, Step, get_tags, set_node_tag, both, skip}
use tatum.Analysis.Guards.{
  is_clock_data_launch_edge, is_clock_data_capture_edge, should_propagate_clock_launch_tags,
  should_propagate_clock_capture_tags, should_propagate_data, should_propagate_clocks,
  check_clock_source,
}
use tatum.Analysis.Arrival.{
  merge_arr_tags, capture_tags, pre_traverse_clock, pre_traverse_input,
  do_arrival_pre_traverse_node, propagate, guarded,
}
use tatum.Analysis.Halts.{
  OpsHalt, active_in_edges-Halts, should_analyze-Halts, node_clock_domain-Halts, clock_source-Halts,
  in_node-Halts, get_tags-Halts, set_node_tag-Halts, each_tag-Halts,
}

-- The guards on an edge.
pub launch_edge-Halts : (tg : TimingGraph) (e : EdgeId) → Halts (is_clock_data_launch_edge tg e)
unfolding is_clock_data_launch_edge
launch_edge-Halts tg e = search halts_rules depth 9

pub capture_edge-Halts : (tg : TimingGraph) (e : EdgeId) → Halts (is_clock_data_capture_edge tg e)
unfolding is_clock_data_capture_edge
capture_edge-Halts tg e = search halts_rules depth 9

pub launch_tags-Halts :
    (tg : TimingGraph) (e : EdgeId) → Halts (should_propagate_clock_launch_tags tg e)
unfolding should_propagate_clock_launch_tags
launch_tags-Halts tg e = search (halts_rules, capture_edge-Halts)

pub capture_guard-Halts :
    (tg : TimingGraph) (e : EdgeId) → Halts (should_propagate_clock_capture_tags tg e)
unfolding should_propagate_clock_capture_tags
capture_guard-Halts tg e = search halts_rules depth 9

pub data_guard-Halts : (tg : TimingGraph) (e : EdgeId) → Halts (should_propagate_data tg e)
unfolding should_propagate_data
data_guard-Halts tg e = search halts_rules depth 9

module _ (F : Float) where
  check_source-Halts :
      (tg : TimingGraph) (id : NodeId) (b : Bool) → Halts (check_clock_source F tg id b)
  check_source-Halts tg id false = search halts_rules
  check_source-Halts tg id true = search halts_rules depth 9

  pub clocks_guard-Halts :
      (tg : TimingGraph) (tc : TimingConstraints F) (e : EdgeId)
      → Halts (should_propagate_clocks F tg tc e)
  unfolding should_propagate_clocks
  clocks_guard-Halts tg tc e = Halts-bind (edge_src_node tg e) _ (Halts-at _ e) (λ src.
      Halts-bind (edge_sink_node tg e) _ (Halts-at _ e) (λ snk.
        Halts-bind (node_type tg snk) _ (Halts-at _ snk) (λ type.
          Halts-branch (same_node_type type source) (ok false) _ (Halts-ok false)
            (search (halts_rules, clock_source-Halts, check_source-Halts)))))

  module _ (ops : AnalysisOps F) (h : OpsHalt ops) where
    pub merge_arr_tags-Halts :
        (id : NodeId) (time : F.Scalar) (origin : NodeId) (tag : TimingTag F) (s : Tables F)
        → Halts (merge_arr_tags F ops id time origin tag s)
    unfolding merge_arr_tags
    merge_arr_tags-Halts id time origin tag s =
        in_node-Halts F s id _ (λ t. h.merge_arr t time origin tag)

    -- Both parts of a step.
    pub both-Halts :
        (first second : Tables F → Result (Step F))
        → ((s : Tables F) → Halts (first s))
        → ((s : Tables F) → Halts (second s))
        → (s : Tables F) → Halts (both F first second s)
    both-Halts first second k l s =
        Halts-bind (first s) _ (k s) (λ r. Halts-bind (second r.1) _ (l r.1) (λ q. Halts-ok _))

    pub guarded-Halts :
        (guard : Result Bool) (run : Tables F → Result (Step F))
        → Halts guard
        → ((s : Tables F) → Halts (run s))
        → (s : Tables F) → Halts (guarded F ops guard run s)
    guarded-Halts guard run g k s =
        Halts-bind guard _ g (λ b. Halts-if b (run s) (skip F s) (k s) (Halts-ok _))

    pub propagate-Halts :
        (delay_of : Result F.Scalar) (type : TagType) (retag : TimingTag F → TimingTag F)
        (origin from node_id : NodeId)
        → Halts delay_of
        → (s : Tables F) → Halts (propagate F ops delay_of type retag origin from node_id s)
    unfolding propagate
    propagate-Halts delay_of type retag origin from node_id k s =
        Halts-bind (get_tags F s from type) _ (get_tags-Halts F s from type) (λ tags.
          Halts-empty tags (skip F s) _ (Halts-ok _) (λ first rest.
            Halts-bind delay_of _ k (λ delay.
              each_tag-Halts F (first ∷ rest) _
                (λ tag t. merge_arr_tags-Halts node_id (F.add tag.time delay) origin (retag tag) t)
                s)))

    capture_tags-Halts :
        (tc : TimingConstraints F) (id : NodeId) (domain : DomainId) (domains : List DomainId)
        (s : Step F)
        → Halts (capture_tags F ops tc id domain domains s)
    unfolding capture_tags
    capture_tags-Halts tc id domain [] s = Halts-ok s
    capture_tags-Halts tc id domain (launch ∷ domains) s =
        Halts-bind (should_analyze F tc launch domain none) _
          (should_analyze-Halts F tc launch domain none)
          (λ analyze.
            Halts-bind _ _
              (Halts-branch analyze _ (ok s)
                (Halts-bind (set_node_tag F id _ s.1) _ (set_node_tag-Halts F id _ s.1)
                  (λ r. Halts-ok _))
                (Halts-ok s))
              (λ s'. capture_tags-Halts tc id domain domains s'))

    pre_traverse_clock-Halts :
        (tc : TimingConstraints F) (id : NodeId) (s : Tables F)
        → Halts (pre_traverse_clock F ops tc id s)
    unfolding pre_traverse_clock
    pre_traverse_clock-Halts tc id s =
        Halts-bind (node_clock_domain F tc id) _ (node_clock_domain-Halts F tc id) (λ domain.
          Halts-check (is_valid domain) _ (
            Halts-bind (set_node_tag F id _ s) _ (set_node_tag-Halts F id _ s)
              (λ launched. capture_tags-Halts tc id domain tc.domain_ids (false, launched.1))))

    pre_traverse_input-Halts :
        (tc : TimingConstraints F) (id : NodeId) (s : Tables F)
        → Halts (pre_traverse_input F ops tc id s)
    unfolding pre_traverse_input
    pre_traverse_input-Halts tc id s =
        Halts-empty (ops.input_constraints tc id) (skip F s) _ (Halts-ok _) (λ first rest.
          Halts-bind (node_clock_domain F tc id) _ (node_clock_domain-Halts F tc id) (λ domain.
            Halts-check (is_valid domain) _ (
              Halts-check (valid F (ops.input_constraint tc id domain)) _ (
                Halts-bind (merge_arr_tags F ops id _ none _ s) _
                  (merge_arr_tags-Halts id _ none _ s) (λ merged. Halts-ok _)))))

    pub arrival_pre-Halts :
        (tg : TimingGraph) (tc : TimingConstraints F) (id : NodeId) (s : Tables F)
        → Halts (do_arrival_pre_traverse_node F ops tg tc id s)
    unfolding do_arrival_pre_traverse_node
    arrival_pre-Halts tg tc id s =
        Halts-bind (node_num_active_in_edges tg id) _ (active_in_edges-Halts tg id) (λ active.
          Halts-check (active == 0) _ (
            Halts-bind (node_type tg id) _ (Halts-at _ id) (λ type.
              Halts-branch (node_is_constant_generator F tc id) _ _
                (Halts-bind (set_node_tag F id ops.const_gen_tag s) _
                  (set_node_tag-Halts F id ops.const_gen_tag s) (λ r. Halts-ok _))
                (Halts-check (same_node_type type source) _ (
                  Halts-bind (node_is_clock_source F tc id) _ (clock_source-Halts F tc id) (λ clock.
                    Halts-branch clock _ _ (pre_traverse_clock-Halts tc id s)
                      (pre_traverse_input-Halts tc id s)))))))
