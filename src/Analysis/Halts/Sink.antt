-- ===== src/Analysis/Halts/Sink.antt =====
-- mark_sink_required_times of libtatum/tatum/graph_visitors/CommonAnalysisVisitor.hpp needs no fuel.
use tatum.Prelude.{Bool, false, ◌&&◌, none, List}
use tatum.Result.Halts.{Halts, Halts-ok, Halts-if, Halts-bind, Halts-branch, Halts-check, Halts-at}
use tatum.Container.{same_id, is_valid}
use tatum.Time.{Float, valid}
use tatum.Graph.{
  TimingGraph, NodeId, sink, same_node_type, edge_src_node, node_type, node_clock_capture_edge,
}
use tatum.Tags.Tag.{TimingTag, DomainId, data_arrival, clock_capture}
use tatum.Constraints.{TimingConstraints, should_analyze}
use tatum.Constraints.Io.{node_clock_domain}
use tatum.Analysis.{DelayCalculator, AnalysisOps, Tables, get_tags, skip}
use tatum.Analysis.Sink.{
  merge_req_tags, require, launch_domain_of, capture_data, capture_at, output_data, output_at,
  mark_sink_required_times,
}
use tatum.Analysis.Halts.{
  OpsHalt, clock_capture_edge-Halts, should_analyze-Halts, node_clock_domain-Halts, in_node-Halts,
  get_tags-Halts, each_tag-Halts,
}

module _ (F : Float) (ops : AnalysisOps F) (h : OpsHalt ops) where
  pub merge_req_tags-Halts :
      (id : NodeId) (time : F.Scalar) (origin : NodeId) (tag : TimingTag F) (must : Bool)
      (s : Tables F)
      → Halts (merge_req_tags F ops id time origin tag must s)
  unfolding merge_req_tags
  merge_req_tags-Halts id time origin tag must s =
      in_node-Halts F s id _ (λ t. h.merge_req t time origin tag must)

  require-Halts :
      (id : NodeId) (time : F.Scalar) (launch capture : DomainId) (s : Tables F)
      → Halts (require F ops id time launch capture s)
  unfolding require
  require-Halts id time launch capture s = merge_req_tags-Halts id time none _ false s

  module _ (tc : TimingConstraints F) (id : NodeId) where
    capture_data-Halts :
        (delay : F.Scalar) (clock_tag data_tag : TimingTag F) (s : Tables F)
        → Halts (capture_data F ops tc id delay clock_tag data_tag s)
    unfolding capture_data
    capture_data-Halts delay clock_tag data_tag s =
        let capture = clock_tag.capture_clock_domain in
        let launch = launch_domain_of F ops data_tag capture in
        Halts-bind (should_analyze F tc launch capture id) _
          (should_analyze-Halts F tc launch capture id)
          (λ analyze.
            Halts-branch (same_id launch clock_tag.launch_clock_domain && analyze) _ (skip F s)
              (Halts-check (valid F data_tag.time) _ (require-Halts id _ launch capture s))
              (Halts-ok _))

    capture_at-Halts :
        (delay : F.Scalar) (clock_tags data_tags : List (TimingTag F)) (s : Tables F)
        → Halts (capture_at F ops tc id delay clock_tags data_tags s)
    unfolding capture_at
    capture_at-Halts delay clock_tags data_tags s =
        each_tag-Halts F clock_tags _
          (λ clock_tag t.
            each_tag-Halts F data_tags (capture_data F ops tc id delay clock_tag)
              (capture_data-Halts delay clock_tag) t)
          s

    output_data-Halts :
        (domain : DomainId) (constraint latency : F.Scalar) (data_tag : TimingTag F) (s : Tables F)
        → Halts (output_data F ops tc id domain constraint latency data_tag s)
    unfolding output_data
    output_data-Halts domain constraint latency data_tag s =
        let launch = launch_domain_of F ops data_tag domain in
        Halts-bind (should_analyze F tc launch domain id) _
          (should_analyze-Halts F tc launch domain id)
          (λ analyze.
            Halts-branch analyze _ (skip F s)
              (Halts-check (valid F data_tag.time) _ (require-Halts id _ launch domain s))
              (Halts-ok _))

    output_at-Halts :
        (data_tags : List (TimingTag F)) (s : Tables F) → Halts (output_at F ops tc id data_tags s)
    unfolding output_at
    output_at-Halts data_tags s =
        Halts-bind (node_clock_domain F tc id) _ (node_clock_domain-Halts F tc id) (λ domain.
          Halts-if _ _ (skip F s) (each_tag-Halts F data_tags _ (output_data-Halts domain _ _) s)
            (Halts-ok _))

  pub mark_sink-Halts :
      (tg : TimingGraph) (tc : TimingConstraints F) (dc : DelayCalculator F) (id : NodeId)
      (s : Tables F)
      → Halts (mark_sink_required_times F ops tg tc dc id s)
  unfolding mark_sink_required_times
  mark_sink-Halts tg tc dc id s = Halts-bind (node_type tg id) _ (Halts-at _ id) (λ type.
      Halts-check (same_node_type type sink) _ (
        Halts-bind (get_tags F s id data_arrival) _ (get_tags-Halts F s id data_arrival)
          (λ data_tags.
            Halts-bind (node_clock_capture_edge tg id) _ (clock_capture_edge-Halts tg id) (λ edge.
              Halts-branch (is_valid edge) _ _
                (Halts-bind (edge_src_node tg edge) _ (Halts-at _ edge) (λ src.
                  Halts-bind (get_tags F s src clock_capture) _
                    (get_tags-Halts F s src clock_capture)
                    (λ clock_tags.
                      Halts-bind (ops.capture_clock_edge_delay dc tg edge) _
                        (h.capture_delay dc tg edge)
                        (λ delay. capture_at-Halts tc id delay clock_tags data_tags s))))
                (output_at-Halts tc id data_tags s)))))
