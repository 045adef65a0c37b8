-- ===== src/Analysis/IncrTraversal.antt =====
-- libtatum/tatum/graph_walkers/SerialIncrWalker.hpp: the traversals, with edge invalidation. A queue that
-- a traversal extends at the level that it is going through invalidates the iterators of the loop on
-- that level, which is reported as out of range.
pub mod Enqueue
pub mod Keep
pub mod Levels
pub mod Whole
use tatum.Prelude.{
  ℕ, zero, suc, Bool, true, false, some, List, [], ◌∷◌, length, leb, ◌==◌, if◌then◌else◌,
}
use tatum.Result.{Result, ok, err, out_of_range, out_of_fuel, ◌>>=◌, for_each}
use tatum.Container.{at, store, push_back}
use tatum.Time.{Float}
use tatum.Graph.{
  TimingGraph, NodeId, EdgeId, EdgeType, primitive_clock_capture, primitive_clock_launch,
  primitive_combinational, interconnect, same_edge_type, node_in_edges, node_out_edges,
  edge_sink_node, edge_src_node, edge_type, levels, level_nodes, logical_outputs,
}
use tatum.Graph.Search.{id_before}
use tatum.Constraints.{TimingConstraints}
use tatum.Analysis.{DelayCalculator}
use tatum.Analysis.Visitor.{GraphVisitor}
use tatum.Analysis.Walker
use tatum.Analysis.Walker.{count_unconstrained, first_level}
use tatum.Analysis.Queue.{
  Queue, empty_queue, is_marked, mark, enqueue_node, clear_queue, resize_levels,
}
use tatum.Analysis.Incremental.{
  IncrWalk, sort, enqueue_modified_node, enqueue_sinks, enqueue_sources, prepare_incr_update,
  clear_modified, clear_invalidated_edges, invalidate_edge,
}

module _ (F : Float) {S : Type 0} (visitor : GraphVisitor F S) (tg : TimingGraph) where
  -- An operation of the visitor that returns nothing, or whether it changed the node.
  abbrev pub on_tables : (S → Result S) → IncrWalk S → Result (IncrWalk S)
  on_tables run w = do s ← run w.tables; ok (record w { tables = s })

  abbrev pub on_node : (S → Result (Bool × S)) → IncrWalk S → Result (Bool × IncrWalk S)
  on_node run w = do r ← run w.tables; ok (r.0, record w { tables = r.1 })

  -- The part of invalidate_node_for_arrival_traversal that depends on the type of the edge.
  unfoldable pub invalidate_clock_tags : NodeId → EdgeType → IncrWalk S → Result (IncrWalk S)
  unfolding enqueue_sources
  invalidate_clock_tags id primitive_clock_capture w = do
    reset ← on_tables (visitor.reset_node_required_tags id) w
    sink_in_edges ← node_in_edges tg id
    enqueue_sources tg sink_in_edges reset
  invalidate_clock_tags id primitive_clock_launch w =
      on_tables (visitor.reset_node_arrival_tags id) w
  invalidate_clock_tags id primitive_combinational w = ok w
  invalidate_clock_tags id interconnect w = ok w

  unfoldable pub invalidate_node_for_arrival_traversal : NodeId → IncrWalk S → Result (IncrWalk S)
  unfolding for_each invalidate_clock_tags
  invalidate_node_for_arrival_traversal node w = do
    in_edges ← node_in_edges tg node
    for_each in_edges w (λ edge t. elim (is_marked t.edge_invalidated edge) [
      | false ↦ ok t
      | true ↦ do
        src_node ← edge_src_node tg edge
        reset ← on_tables (visitor.reset_node_arrival_tags_from_origin node src_node) t
        type ← edge_type tg edge
        invalidate_clock_tags node type reset
    ])

  unfoldable pub invalidate_node_for_required_traversal : NodeId → IncrWalk S → Result (IncrWalk S)
  unfolding for_each
  invalidate_node_for_required_traversal node w = do
    out_edges ← node_out_edges tg node
    for_each out_edges w (λ edge t. elim (is_marked t.edge_invalidated edge) [
      | false ↦ ok t
      | true ↦ do
        snk_node ← edge_sink_node tg edge
        on_tables (visitor.reset_node_required_tags_from_origin node snk_node) t
    ])

  module _ (tc : TimingConstraints F) where
    pub do_arrival_pre_traversal : IncrWalk S → Result (IncrWalk S)
    unfolding count_unconstrained
    do_arrival_pre_traversal w = do
      ls ← levels tg
      first ← first_level ls
      nodes ← level_nodes tg first
      r ← count_unconstrained (visitor.arrival_pre_traverse_node tg tc) nodes 0 w.tables
      ok (record w { tables = r.1; num_unconstrained_startpoints = r.0 })

    pub do_required_pre_traversal : IncrWalk S → Result (IncrWalk S)
    unfolding count_unconstrained
    do_required_pre_traversal w = do
      nodes ← logical_outputs tg
      r ← count_unconstrained (visitor.required_pre_traverse_node tg tc) nodes 0 w.tables
      ok (record w { tables = r.1; num_unconstrained_endpoints = r.0 })

    module _ (dc : DelayCalculator F) where
      -- The body of the loop on the nodes of a level, in both traversals.
      unfoldable pub update_arrival : NodeId → IncrWalk S → Result (IncrWalk S)
      unfolding enqueue_sinks enqueue_modified_node invalidate_node_for_arrival_traversal
      update_arrival node w = do
        invalid ← invalidate_node_for_arrival_traversal node w
        r ← on_node (visitor.arrival_traverse_node tg tc dc node) invalid
        elim r.0 [
          | false ↦ ok r.1
          | true ↦ do
            modified ← enqueue_modified_node node r.1
            out_edges ← node_out_edges tg node
            enqueue_sinks tg out_edges modified
        ]

      unfoldable pub update_required : NodeId → IncrWalk S → Result (IncrWalk S)
      unfolding enqueue_sources enqueue_modified_node invalidate_node_for_required_traversal
      update_required node w = do
        invalid ← invalidate_node_for_required_traversal node w
        r ← on_node (visitor.required_traverse_node tg tc dc node) invalid
        elim r.0 [
          | false ↦ ok r.1
          | true ↦ do
            modified ← enqueue_modified_node node r.1
            in_edges ← node_in_edges tg node
            enqueue_sources tg in_edges modified
        ]

      -- A level of the arrival traversal: its nodes are sorted, and the loop goes through them.
      unfoldable pub arrival_level : ℕ → IncrWalk S → Result (IncrWalk S)
      unfolding for_each sort update_arrival
      arrival_level level w = do
        nodes ← at w.incr_arr_update.nodes_to_process (some level)
        lists ← store w.incr_arr_update.nodes_to_process (some level) (sort nodes)
        w' ←
            for_each (sort nodes)
              (record w { incr_arr_update = record w.incr_arr_update { nodes_to_process = lists } })
              update_arrival
        after ← at w'.incr_arr_update.nodes_to_process (some level)
        elim (length after == length nodes) [ true ↦ ok w' | false ↦ err out_of_range ]

      unfoldable pub required_level : ℕ → IncrWalk S → Result (IncrWalk S)
      unfolding for_each sort update_required
      required_level level w = do
        nodes ← at w.incr_req_update.nodes_to_process (some level)
        lists ← store w.incr_req_update.nodes_to_process (some level) (sort nodes)
        w' ←
            for_each (sort nodes)
              (record w { incr_req_update = record w.incr_req_update { nodes_to_process = lists } })
              update_required
        after ← at w'.incr_req_update.nodes_to_process (some level)
        elim (length after == length nodes) [ true ↦ ok w' | false ↦ err out_of_range ]

      -- for(level_idx = level; level_idx <= max_level; ++level_idx), with the rounds that are left.
      pub arrival_levels : ℕ → ℕ → IncrWalk S → Result (IncrWalk S)
      unfolding arrival_level
      arrival_levels zero level w = err out_of_fuel
      arrival_levels (suc rounds) level w = elim (leb level w.incr_arr_update.max_level) [
        | false ↦ ok w
        | true ↦ do w' ← arrival_level level w; arrival_levels rounds (suc level) w'
      ]

      -- A level past the end of the queue is out of range, which bounds the rounds.
      pub do_arrival_traversal : IncrWalk S → Result (IncrWalk S)
      unfolding arrival_levels
      do_arrival_traversal w = do
        w' ← prepare_incr_update tg w
        arrival_levels (suc (suc (length w'.incr_arr_update.nodes_to_process)))
            w'.incr_arr_update.min_level w'

      -- for(level_idx = level - 1; level_idx >= min_level; --level_idx). No min_level is below 0.
      pub required_levels : ℕ → IncrWalk S → Result (IncrWalk S)
      unfolding required_level
      required_levels zero w = ok w
      required_levels (suc level) w = elim (leb w.incr_req_update.min_level level) [
        | false ↦ ok w
        | true ↦ do w' ← required_level level w; required_levels level w'
      ]

      pub do_required_traversal : IncrWalk S → Result (IncrWalk S)
      unfolding required_levels
      do_required_traversal w = required_levels (suc w.incr_req_update.max_level) w

  -- The slacks of the modified nodes, and those of the edges into them.
  unfoldable pub update_node_slack : DelayCalculator F → NodeId → IncrWalk S → Result (IncrWalk S)
  unfolding for_each
  update_node_slack dc node w = do
    in_edges ← node_in_edges tg node
    edges ← on_tables (λ s. for_each in_edges s visitor.reset_edge) w
    reset ← on_tables (visitor.reset_node_slack_tags node) edges
    r ← on_node (visitor.slack_traverse_node tg dc node) reset
    ok r.1

  pub do_update_slack : DelayCalculator F → IncrWalk S → Result (IncrWalk S)
  unfolding for_each sort update_node_slack
  do_update_slack dc w =
      let sorted = sort w.nodes_modified in
      for_each sorted (record w { nodes_modified = sorted }) (update_node_slack dc)

  pub do_reset : IncrWalk S → Result (IncrWalk S)
  do_reset w = on_tables (Walker.do_reset F visitor tg) w
