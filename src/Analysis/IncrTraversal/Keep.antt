-- ===== src/Analysis/IncrTraversal/Keep.antt =====
-- What the steps of a traversal of libtatum/tatum/graph_walkers/SerialIncrWalker.hpp keep.
use tatum.Prelude.{ℕ, Bool}
use tatum.Result.{Result}
use tatum.Result.Ends.{Ends, Ends-branch, Ends-bind, Ends-for_each, Ends-check}
use tatum.Container.{at}
use tatum.Time.{Float}
use tatum.Graph.{
  TimingGraph, NodeId, EdgeId, EdgeType, primitive_clock_capture, primitive_clock_launch,
  primitive_combinational, interconnect, node_in_edges, node_out_edges, edge_sink_node,
  edge_src_node, edge_type, valid_edge_id,
}
use tatum.Constraints.{TimingConstraints}
use tatum.Analysis.{DelayCalculator}
use tatum.Analysis.Visitor.{GraphVisitor}
use tatum.Analysis.Queue.{is_marked}
use tatum.Analysis.Incremental.{IncrWalk, enqueue_modified_node}
use tatum.Analysis.IncrTraversal.{
  on_tables, on_node, invalidate_clock_tags, invalidate_node_for_arrival_traversal,
  invalidate_node_for_required_traversal, update_arrival, update_required,
}
use tatum.Analysis.IncrTraversal.Enqueue.{
  IsSound, Keeps, at-Ends, enqueue_sinks-Keeps, enqueue_sources-Keeps, enqueue_modified_node-Keeps,
}

-- The operations of a visitor that an incremental traversal calls return, or stop with a fault.
pub record Finishes {F : Float} {S : Type 0} (visitor : GraphVisitor F S) : Type 0 where
  pub reset_edge : (id : EdgeId) (s : S) → Ends (λ s'. Unit {0}) (visitor.reset_edge id s)
  pub reset_arrival :
      (id : NodeId) (s : S) → Ends (λ s'. Unit {0}) (visitor.reset_node_arrival_tags id s)
  pub reset_required :
      (id : NodeId) (s : S) → Ends (λ s'. Unit {0}) (visitor.reset_node_required_tags id s)
  pub reset_slack :
      (id : NodeId) (s : S) → Ends (λ s'. Unit {0}) (visitor.reset_node_slack_tags id s)
  pub reset_arrival_from :
      (id origin : NodeId) (s : S)
      → Ends (λ s'. Unit {0}) (visitor.reset_node_arrival_tags_from_origin id origin s)
  pub reset_required_from :
      (id origin : NodeId) (s : S)
      → Ends (λ s'. Unit {0}) (visitor.reset_node_required_tags_from_origin id origin s)
  pub arrival_pre :
      (tg : TimingGraph) (tc : TimingConstraints F) (id : NodeId) (s : S)
      → Ends (λ r. Unit {0}) (visitor.arrival_pre_traverse_node tg tc id s)
  pub required_pre :
      (tg : TimingGraph) (tc : TimingConstraints F) (id : NodeId) (s : S)
      → Ends (λ r. Unit {0}) (visitor.required_pre_traverse_node tg tc id s)
  pub arrival :
      (tg : TimingGraph) (tc : TimingConstraints F) (dc : DelayCalculator F) (id : NodeId) (s : S)
      → Ends (λ r. Unit {0}) (visitor.arrival_traverse_node tg tc dc id s)
  pub required :
      (tg : TimingGraph) (tc : TimingConstraints F) (dc : DelayCalculator F) (id : NodeId) (s : S)
      → Ends (λ r. Unit {0}) (visitor.required_traverse_node tg tc dc id s)
  pub slack :
      (tg : TimingGraph) (dc : DelayCalculator F) (id : NodeId) (s : S)
      → Ends (λ r. Unit {0}) (visitor.slack_traverse_node tg dc id s)

module _ (F : Float) {S : Type 0} (visitor : GraphVisitor F S) (finishes : Finishes visitor)
    (tg : TimingGraph) (n : ℕ) where
  with_tables : (s : S) (w : IncrWalk S) → IsSound tg n w → IsSound tg n (record w { tables = s })
  with_tables s w h = record {
    queued = record {
      arr = h.queued.arr;
      req = h.queued.req;
      arr_len = h.queued.arr_len;
      req_len = h.queued.req_len;
    };
    invalidated = h.invalidated;
  }

  pub on_tables-Keeps :
      (run : S → Result S)
      → ((s : S) → Ends (λ s'. Unit {0}) (run s))
      → Keeps tg n (on_tables F visitor tg run)
  on_tables-Keeps run ends w h =
      Ends-bind (λ s'. Unit {0}) (IsSound tg n) (run w.tables) _ (ends w.tables)
        (λ s' finished. with_tables s' w h)

  pub on_node-Keeps :
      (run : S → Result (Bool × S)) (w : IncrWalk S)
      → ((s : S) → Ends (λ r. Unit {0}) (run s))
      → IsSound tg n w
      → Ends (λ r. IsSound tg n r.1) (on_node F visitor tg run w)
  on_node-Keeps run w ends h =
      Ends-bind (λ r. Unit {0}) (λ r. IsSound tg n r.1) (run w.tables) _ (ends w.tables)
        (λ r finished. with_tables r.1 w h)

  invalidate_clock_tags-Keeps :
      (id : NodeId) (type : EdgeType) → Keeps tg n (invalidate_clock_tags F visitor tg id type)
  unfolding invalidate_clock_tags
  invalidate_clock_tags-Keeps id primitive_clock_capture w h =
      Ends-bind (IsSound tg n) (IsSound tg n)
        (on_tables F visitor tg (visitor.reset_node_required_tags id) w) _
        (on_tables-Keeps (visitor.reset_node_required_tags id) (finishes.reset_required id) w h)
        (λ w' sound.
          Ends-bind (λ es. Unit {0}) (IsSound tg n) (node_in_edges tg id) _
            (at-Ends tg.node_in_edges id)
            (λ edges found. enqueue_sources-Keeps tg n edges w' sound))
  invalidate_clock_tags-Keeps id primitive_clock_launch w h =
      on_tables-Keeps (visitor.reset_node_arrival_tags id) (finishes.reset_arrival id) w h
  invalidate_clock_tags-Keeps id primitive_combinational w h = h
  invalidate_clock_tags-Keeps id interconnect w h = h

  edge_type-Ends : (edge : EdgeId) → Ends (λ t. Unit {0}) (edge_type tg edge)
  edge_type-Ends edge =
      Ends-check (λ t. Unit {0}) (valid_edge_id tg edge) (at tg.edge_types edge)
        (λ valid. at-Ends tg.edge_types edge)

  invalidate_arrival-Keeps :
      (id : NodeId) → Keeps tg n (invalidate_node_for_arrival_traversal F visitor tg id)
  unfolding invalidate_node_for_arrival_traversal
  invalidate_arrival-Keeps id w h =
      Ends-bind (λ es. Unit {0}) (IsSound tg n) (node_in_edges tg id) _
        (at-Ends tg.node_in_edges id)
        (λ in_edges found. Ends-for_each (IsSound tg n) in_edges w _ h (λ edge t sound.
          Ends-branch (IsSound tg n) (is_marked t.edge_invalidated edge) _ _
            (λ invalid.
              Ends-bind (λ src. Unit {0}) (IsSound tg n) (edge_src_node tg edge) _
                (at-Ends tg.edge_src_nodes edge)
                (λ src_node found'.
                  Ends-bind (IsSound tg n) (IsSound tg n)
                    (on_tables F visitor tg
                      (visitor.reset_node_arrival_tags_from_origin id src_node) t)
                    _
                    (on_tables-Keeps (visitor.reset_node_arrival_tags_from_origin id src_node)
                      (finishes.reset_arrival_from id src_node) t sound)
                    (λ t' sound'.
                      Ends-bind (λ type. Unit {0}) (IsSound tg n) (edge_type tg edge) _
                        (edge_type-Ends edge)
                        (λ type found''. invalidate_clock_tags-Keeps id type t' sound'))))
            (λ valid. sound)))

  invalidate_required-Keeps :
      (id : NodeId) → Keeps tg n (invalidate_node_for_required_traversal F visitor tg id)
  unfolding invalidate_node_for_required_traversal
  invalidate_required-Keeps id w h =
      Ends-bind (λ es. Unit {0}) (IsSound tg n) (node_out_edges tg id) _
        (at-Ends tg.node_out_edges id)
        (λ out_edges found. Ends-for_each (IsSound tg n) out_edges w _ h (λ edge t sound.
          Ends-branch (IsSound tg n) (is_marked t.edge_invalidated edge) _ _
            (λ invalid.
              Ends-bind (λ snk. Unit {0}) (IsSound tg n) (edge_sink_node tg edge) _
                (at-Ends tg.edge_sink_nodes edge)
                (λ snk_node found'.
                  on_tables-Keeps (visitor.reset_node_required_tags_from_origin id snk_node)
                    (finishes.reset_required_from id snk_node) t sound))
            (λ valid. sound)))

  module _ (tc : TimingConstraints F) (dc : DelayCalculator F) where
    pub update_arrival-Keeps : (id : NodeId) → Keeps tg n (update_arrival F visitor tg tc dc id)
    unfolding update_arrival
    update_arrival-Keeps id w h =
        Ends-bind (IsSound tg n) (IsSound tg n)
          (invalidate_node_for_arrival_traversal F visitor tg id w) _
          (invalidate_arrival-Keeps id w h)
          (λ w' sound.
            Ends-bind (λ r. IsSound tg n r.1) (IsSound tg n)
              (on_node F visitor tg (visitor.arrival_traverse_node tg tc dc id) w') _
              (on_node-Keeps (visitor.arrival_traverse_node tg tc dc id) w'
                (finishes.arrival tg tc dc id) sound)
              (λ r sound'.
                Ends-branch (IsSound tg n) r.0 _ _
                  (λ updated.
                    Ends-bind (IsSound tg n) (IsSound tg n) (enqueue_modified_node id r.1) _
                      (enqueue_modified_node-Keeps tg n id r.1 sound')
                      (λ w'' sound''.
                        Ends-bind (λ es. Unit {0}) (IsSound tg n) (node_out_edges tg id) _
                          (at-Ends tg.node_out_edges id)
                          (λ edges found. enqueue_sinks-Keeps tg n edges w'' sound'')))
                  (λ same. sound')))

    pub update_required-Keeps : (id : NodeId) → Keeps tg n (update_required F visitor tg tc dc id)
    unfolding update_required
    update_required-Keeps id w h =
        Ends-bind (IsSound tg n) (IsSound tg n)
          (invalidate_node_for_required_traversal F visitor tg id w) _
          (invalidate_required-Keeps id w h)
          (λ w' sound.
            Ends-bind (λ r. IsSound tg n r.1) (IsSound tg n)
              (on_node F visitor tg (visitor.required_traverse_node tg tc dc id) w') _
              (on_node-Keeps (visitor.required_traverse_node tg tc dc id) w'
                (finishes.required tg tc dc id) sound)
              (λ r sound'.
                Ends-branch (IsSound tg n) r.0 _ _
                  (λ updated.
                    Ends-bind (IsSound tg n) (IsSound tg n) (enqueue_modified_node id r.1) _
                      (enqueue_modified_node-Keeps tg n id r.1 sound')
                      (λ w'' sound''.
                        Ends-bind (λ es. Unit {0}) (IsSound tg n) (node_in_edges tg id) _
                          (at-Ends tg.node_in_edges id)
                          (λ edges found. enqueue_sources-Keeps tg n edges w'' sound'')))
                  (λ same. sound')))
