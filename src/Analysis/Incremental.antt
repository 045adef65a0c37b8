-- ===== src/Analysis/Incremental.antt =====
-- libtatum/tatum/graph_walkers/SerialIncrWalker.hpp. The options TATUM_INCR_BLOCK_INVALIDATION and
-- TATUM_USE_TBB are taken as not set. The traversals are in IncrTraversal.antt.
pub mod Edges
pub mod Prepare
pub mod Sorting
use tatum.Prelude.{ℕ, Bool, true, false, List, [], ◌∷◌, length, if◌then◌else◌}
use tatum.Result.{Result, ok, ◌>>=◌, for_each}
use tatum.Container.{push_back}
use tatum.Graph.{TimingGraph, NodeId, EdgeId, edge_sink_node, edge_src_node, levels}
use tatum.Graph.Search.{id_before}
use tatum.Analysis.Queue.{
  Queue, empty_queue, is_marked, mark, enqueue_node, clear_queue, resize_levels,
}

-- The members of the walker, with the state of the visitor that it drives.
pub record IncrWalk (S : Type 0) : Type 0 where
  pub tables : S
  pub incr_arr_update : Queue
  pub incr_req_update : Queue
  pub invalidated_edges : List EdgeId
  pub edge_invalidated : List Bool
  pub nodes_modified : List NodeId
  pub node_is_modified : List Bool
  pub num_unconstrained_startpoints : ℕ
  pub num_unconstrained_endpoints : ℕ

-- std::sort of ids
pub place : NodeId → List NodeId → List NodeId
place x [] = x ∷ []
place x (y ∷ ys) = let rest = place x ys in if id_before y x then y ∷ rest else x ∷ y ∷ ys

unfoldable pub sort : List NodeId → List NodeId
unfolding place
sort [] = []
sort (x ∷ xs) = place x (sort xs)

module _ {S : Type 0} where
  -- A walker that has not been used.
  abbrev pub new_walk : S → IncrWalk S
  new_walk s = record {
    tables = s;
    incr_arr_update = empty_queue;
    incr_req_update = empty_queue;
    invalidated_edges = [];
    edge_invalidated = [];
    nodes_modified = [];
    node_is_modified = [];
    num_unconstrained_startpoints = 0;
    num_unconstrained_endpoints = 0;
  }

  unfoldable pub invalidate_edge : EdgeId → IncrWalk S → Result (IncrWalk S)
  invalidate_edge edge w = elim (is_marked w.edge_invalidated edge) [
    | true ↦ ok w
    | false ↦ do
      marked ← mark w.edge_invalidated edge
      ok (record w {
        invalidated_edges = push_back w.invalidated_edges edge;
        edge_invalidated = marked;
      })
  ]

  abbrev pub clear_invalidated_edges : IncrWalk S → IncrWalk S
  clear_invalidated_edges w = record w { invalidated_edges = []; edge_invalidated = [] }

  abbrev pub clear_modified : IncrWalk S → IncrWalk S
  clear_modified w = record w { nodes_modified = []; node_is_modified = [] }

  unfoldable pub enqueue_modified_node : NodeId → IncrWalk S → Result (IncrWalk S)
  enqueue_modified_node node w = elim (is_marked w.node_is_modified node) [
    | true ↦ ok w
    | false ↦ do
      marked ← mark w.node_is_modified node
      ok (record w { nodes_modified = push_back w.nodes_modified node; node_is_modified = marked })
  ]

  module _ (tg : TimingGraph) where
    unfoldable pub enqueue_arr_node : NodeId → EdgeId → IncrWalk S → Result (IncrWalk S)
    unfolding invalidate_edge enqueue_node
    enqueue_arr_node node invalidated_edge w = do
      w' ← invalidate_edge invalidated_edge w
      queue ← enqueue_node tg node w'.incr_arr_update
      ok (record w' { incr_arr_update = queue })

    unfoldable pub enqueue_req_node : NodeId → EdgeId → IncrWalk S → Result (IncrWalk S)
    unfolding invalidate_edge enqueue_node
    enqueue_req_node node invalidated_edge w = do
      w' ← invalidate_edge invalidated_edge w
      queue ← enqueue_node tg node w'.incr_req_update
      ok (record w' { incr_req_update = queue })

    -- for(edge : edges) enqueue_arr_node(tg, tg.edge_sink_node(edge), edge)
    unfoldable pub enqueue_sinks : List EdgeId → IncrWalk S → Result (IncrWalk S)
    unfolding for_each enqueue_arr_node
    enqueue_sinks edges w =
        for_each edges w
          (λ edge t. do snk_node ← edge_sink_node tg edge; enqueue_arr_node snk_node edge t)

    -- for(edge : edges) enqueue_req_node(tg, tg.edge_src_node(edge), edge)
    unfoldable pub enqueue_sources : List EdgeId → IncrWalk S → Result (IncrWalk S)
    unfolding for_each enqueue_req_node
    enqueue_sources edges w =
        for_each edges w
          (λ edge t. do src_node ← edge_src_node tg edge; enqueue_req_node src_node edge t)

    -- The sink of an invalidated edge is enqueued for the arrival traversal, its source for the required
    -- traversal.
    unfoldable pub prepare_edge : EdgeId → IncrWalk S → Result (IncrWalk S)
    unfolding enqueue_arr_node enqueue_req_node
    prepare_edge edge w = do
      snk_node ← edge_sink_node tg edge
      arrivals ← enqueue_arr_node snk_node edge w
      src_node ← edge_src_node tg edge
      enqueue_req_node src_node edge arrivals

    unfoldable pub prepare_incr_update : IncrWalk S → Result (IncrWalk S)
    unfolding for_each prepare_edge
    prepare_incr_update w = do
      ls ← levels tg
      arr ← clear_queue tg (resize_levels (length ls) w.incr_arr_update)
      req ← clear_queue tg (resize_levels (length ls) w.incr_req_update)
      for_each w.invalidated_edges
          (record (clear_modified w) { incr_arr_update = arr; incr_req_update = req }) prepare_edge
