-- ===== src/Analysis/IncrTraversal/Whole.antt =====
-- The traversals of libtatum/tatum/graph_walkers/SerialIncrWalker.hpp, as wholes: they end.
use tatum.Prelude.{ℕ, suc, sym, Bool, List, [], ◌∷◌, arith, length}
use tatum.Result.{Result, ok}
use tatum.Result.Ends.{Ends, Ends-bind, Ends-for_each, Ends-check}
use tatum.Container.{at}
use tatum.Time.{Float}
use tatum.Graph.{TimingGraph, NodeId, LevelId, level_nodes, logical_outputs}
use tatum.Constraints.{TimingConstraints}
use tatum.Analysis.{DelayCalculator}
use tatum.Analysis.Visitor.{GraphVisitor}
use tatum.Analysis.Walker.{count_unconstrained, first_level}
use tatum.Analysis.Incremental.{IncrWalk, prepare_incr_update, prepare_edge, clear_modified}
use tatum.Analysis.Incremental.Prepare.{HasLevels, IsReady, cleared_queue}
use tatum.Analysis.IncrTraversal.{
  do_arrival_pre_traversal, do_required_pre_traversal, do_arrival_traversal,
}
use tatum.Analysis.IncrTraversal.Enqueue.{IsSound, at-Ends, prepare_edge-Keeps}
use tatum.Analysis.IncrTraversal.Keep.{Finishes}
use tatum.Analysis.IncrTraversal.Levels.{arrival_levels-Ends}

module _ {S : Type 0} (tg : TimingGraph) (n : ℕ) (g : HasLevels tg n) where
  prepare_incr_update-Ends :
      (w : IncrWalk S) → IsReady tg n w → Ends (IsSound tg n) (prepare_incr_update tg w)
  unfolding prepare_incr_update
  prepare_incr_update-Ends w h =
      let (arr, arr_run, arr_is) = cleared_queue tg n w.incr_arr_update g h.arr_range h.arr_in in
      let (req, req_run, req_is) = cleared_queue tg n w.incr_req_update g h.req_range h.req_in in
      let start = record (clear_modified w) { incr_arr_update = arr; incr_req_update = req } in
      rw (prepare_incr_update, g.is_levels, sym g.many, arr_run, req_run)
        (Ends-for_each (IsSound tg n) w.invalidated_edges start (prepare_edge tg)
          record {
            queued = record {
              arr = arr_is.0;
              req = req_is.0;
              arr_len = arr_is.1;
              req_len = req_is.1;
            };
            invalidated = h.invalidated;
          }
          (prepare_edge-Keeps tg n))

first_level-Ends : (ids : List LevelId) → Ends (λ level. Unit {0}) (first_level ids)
first_level-Ends [] = λ e. cc
first_level-Ends (level ∷ ids) = tt

module _ (F : Float) {S : Type 0} (visitor : GraphVisitor F S) (finishes : Finishes visitor)
    (tg : TimingGraph) (n : ℕ) (g : HasLevels tg n) where
  count_unconstrained-Ends :
      (run : NodeId → S → Result (Bool × S))
      → ((id : NodeId) (s : S) → Ends (λ r. Unit {0}) (run id s))
      → (nodes : List NodeId) (count : ℕ) (s : S)
      → Ends (λ r. Unit {0}) (count_unconstrained run nodes count s)
  unfolding count_unconstrained
  count_unconstrained-Ends run ends [] count s = tt
  count_unconstrained-Ends run ends (id ∷ ids) count s =
      Ends-bind (λ r. Unit {0}) (λ r. Unit {0}) (run id s) _ (ends id s)
        (λ r finished. count_unconstrained-Ends run ends ids _ r.1)

  module _ (tc : TimingConstraints F) where
    pub do_arrival_pre_traversal-Ends :
        (w : IncrWalk S)
        → IsReady tg n w
        → Ends (IsReady tg n) (do_arrival_pre_traversal F visitor tg tc w)
    unfolding do_arrival_pre_traversal
    do_arrival_pre_traversal-Ends w h =
        rw (do_arrival_pre_traversal, g.is_levels)
          (Ends-bind (λ level. Unit {0}) (IsReady tg n) (first_level g.ids) _
            (first_level-Ends g.ids)
            (λ level found.
              Ends-bind (λ nodes. Unit {0}) (IsReady tg n) (level_nodes tg level) _
                (Ends-check (λ nodes. Unit {0}) tg.is_levelized (at tg.level_nodes level)
                  (λ levelized. at-Ends tg.level_nodes level))
                (λ nodes found'.
                  Ends-bind (λ r. Unit {0}) (IsReady tg n)
                    (count_unconstrained (visitor.arrival_pre_traverse_node tg tc) nodes 0 w.tables)
                    _
                    (count_unconstrained-Ends (visitor.arrival_pre_traverse_node tg tc)
                      (finishes.arrival_pre tg tc) nodes 0 w.tables)
                    (λ r finished. record {
                      invalidated = h.invalidated;
                      arr_range = h.arr_range;
                      req_range = h.req_range;
                      arr_in = h.arr_in;
                      req_in = h.req_in;
                    }))))

    pub do_required_pre_traversal-Ends :
        (w : IncrWalk S)
        → IsSound tg n w
        → Ends (IsSound tg n) (do_required_pre_traversal F visitor tg tc w)
    unfolding do_required_pre_traversal
    do_required_pre_traversal-Ends w h =
        Ends-bind (λ nodes. Unit {0}) (IsSound tg n) (logical_outputs tg) _
          (Ends-check (λ nodes. Unit {0}) tg.is_levelized (ok tg.logical_outputs) (λ levelized. tt))
          (λ nodes found.
            Ends-bind (λ r. Unit {0}) (IsSound tg n)
              (count_unconstrained (visitor.required_pre_traverse_node tg tc) nodes 0 w.tables) _
              (count_unconstrained-Ends (visitor.required_pre_traverse_node tg tc)
                (finishes.required_pre tg tc) nodes 0 w.tables)
              (λ r finished. record {
                queued = record {
                  arr = h.queued.arr;
                  req = h.queued.req;
                  arr_len = h.queued.arr_len;
                  req_len = h.queued.req_len;
                };
                invalidated = h.invalidated;
              }))

    module _ (dc : DelayCalculator F) where
      pub do_arrival_traversal-Ends :
          (w : IncrWalk S)
          → IsReady tg n w
          → Ends (IsSound tg n) (do_arrival_traversal F visitor tg tc dc w)
      unfolding do_arrival_traversal
      do_arrival_traversal-Ends w h =
          Ends-bind (IsSound tg n) (IsSound tg n) (prepare_incr_update tg w) _
            (prepare_incr_update-Ends tg n g w h)
            (λ w' sound.
              arrival_levels-Ends F visitor finishes tg n tc dc
                (suc (suc (length w'.incr_arr_update.nodes_to_process)))
                w'.incr_arr_update.min_level w' (omega arith) (omega (arith, sound.queued.arr_len))
                sound)
