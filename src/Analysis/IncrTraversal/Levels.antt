-- ===== src/Analysis/IncrTraversal/Levels.antt =====
-- The loops on the levels in libtatum/tatum/graph_walkers/SerialIncrWalker.hpp: they end.
use tatum.Prelude.{
  ℕ, zero, suc, ◌+◌, ◌<◌, ◌≤◌, ◌∙◌, inl, inr, some, [], arith, length, get_or, ltb, leb, ◌==◌,
  length-set, get_elem?_out, Bool-cases, ltb→lt,
}
use tatum.Result.{ok, err, out_of_range, for_each}
use tatum.Result.Ends.{Ends, Ends-branch, Ends-bind, Ends-for_each}
use tatum.Container.{at}
use tatum.Container.Laws.{at_in, store_in}
use tatum.Time.{Float}
use tatum.Graph.{TimingGraph, NodeId, node_in_edges}
use tatum.Constraints.{TimingConstraints}
use tatum.Analysis.{DelayCalculator}
use tatum.Analysis.Visitor.{GraphVisitor}
use tatum.Analysis.Incremental.{IncrWalk, sort}
use tatum.Analysis.Incremental.Sorting.{sort_level, sort_level-IsQueue}
use tatum.Analysis.IncrTraversal.{
  on_tables, on_node, update_arrival, update_required, arrival_level, required_level,
  arrival_levels, required_levels, do_required_traversal, update_node_slack, do_update_slack,
}
use tatum.Analysis.IncrTraversal.Enqueue.{IsSound, Keeps, at-Ends}
use tatum.Analysis.IncrTraversal.Keep.{
  Finishes, on_tables-Keeps, on_node-Keeps, update_arrival-Keeps, update_required-Keeps,
}

module _ (F : Float) {S : Type 0} (visitor : GraphVisitor F S) (finishes : Finishes visitor)
    (tg : TimingGraph) (n : ℕ) where
  module _ (tc : TimingConstraints F) (dc : DelayCalculator F) where
    module _ (level : ℕ) (w : IncrWalk S) (h : IsSound tg n w) where
      arrival_level-Ends : Ends (IsSound tg n) (arrival_level F visitor tg tc dc level w)
      unfolding arrival_level
      arrival_level-Ends =
          let lists = w.incr_arr_update.nodes_to_process in
          let nodes = get_or lists level [] in
          elim (Bool-cases (ltb level (length lists))) [
            | inr out ↦
                rw (arrival_level, get_elem?_out lists level (ground (arith, out))) (λ e. cc)
            | inl inside ↦
                let in_range = ltb→lt level (length lists) inside in
                let start = record w { incr_arr_update = sort_level level w.incr_arr_update } in
                rw
                  (
                    arrival_level,
                    at_in lists level [] in_range,
                    store_in lists level (sort nodes) in_range,
                  )
                  (Ends-bind (IsSound tg n) (IsSound tg n)
                    (for_each (sort nodes) start (update_arrival F visitor tg tc dc)) _
                    (Ends-for_each (IsSound tg n) (sort nodes) start _
                      record {
                        queued = record {
                          arr = sort_level-IsQueue tg level w.incr_arr_update in_range h.queued.arr;
                          req = h.queued.req;
                          arr_len = length-set lists level (sort nodes) ∙ h.queued.arr_len;
                          req_len = h.queued.req_len;
                        };
                        invalidated = h.invalidated;
                      }
                      (update_arrival-Keeps F visitor finishes tg n tc dc))
                    (λ w' sound.
                      Ends-bind (λ after. Unit {0}) (IsSound tg n)
                        (at w'.incr_arr_update.nodes_to_process (some level)) _
                        (at-Ends w'.incr_arr_update.nodes_to_process (some level))
                        (λ after found.
                          Ends-branch (IsSound tg n) (length after == length nodes) (ok w')
                            (err out_of_range) (λ same. sound) (λ more e. cc))))
          ]

      required_level-Ends : Ends (IsSound tg n) (required_level F visitor tg tc dc level w)
      unfolding required_level
      required_level-Ends =
          let lists = w.incr_req_update.nodes_to_process in
          let nodes = get_or lists level [] in
          elim (Bool-cases (ltb level (length lists))) [
            | inr out ↦
                rw (required_level, get_elem?_out lists level (ground (arith, out))) (λ e. cc)
            | inl inside ↦
                let in_range = ltb→lt level (length lists) inside in
                let start = record w { incr_req_update = sort_level level w.incr_req_update } in
                rw
                  (
                    required_level,
                    at_in lists level [] in_range,
                    store_in lists level (sort nodes) in_range,
                  )
                  (Ends-bind (IsSound tg n) (IsSound tg n)
                    (for_each (sort nodes) start (update_required F visitor tg tc dc)) _
                    (Ends-for_each (IsSound tg n) (sort nodes) start _
                      record {
                        queued = record {
                          arr = h.queued.arr;
                          req = sort_level-IsQueue tg level w.incr_req_update in_range h.queued.req;
                          arr_len = h.queued.arr_len;
                          req_len = length-set lists level (sort nodes) ∙ h.queued.req_len;
                        };
                        invalidated = h.invalidated;
                      }
                      (update_required-Keeps F visitor finishes tg n tc dc))
                    (λ w' sound.
                      Ends-bind (λ after. Unit {0}) (IsSound tg n)
                        (at w'.incr_req_update.nodes_to_process (some level)) _
                        (at-Ends w'.incr_req_update.nodes_to_process (some level))
                        (λ after found.
                          Ends-branch (IsSound tg n) (length after == length nodes) (ok w')
                            (err out_of_range) (λ same. sound) (λ more e. cc))))
          ]

    -- A level that the loop goes to is one of `n`, so that as many rounds, and one, are enough.
    pub arrival_levels-Ends :
        (rounds level : ℕ) (w : IncrWalk S)
        → 0 < rounds
        → n < level + rounds
        → IsSound tg n w
        → Ends (IsSound tg n) (arrival_levels F visitor tg tc dc rounds level w)
    unfolding arrival_levels
    arrival_levels-Ends zero level w some_left enough h = absurd (omega arith)
    arrival_levels-Ends (suc rounds) level w some_left enough h =
        Ends-branch (IsSound tg n) (leb level w.incr_arr_update.max_level) _ _
          (λ within.
            Ends-bind (IsSound tg n) (IsSound tg n) (arrival_level F visitor tg tc dc level w) _
              (arrival_level-Ends level w h)
              (λ w' sound.
                let at_most : level ≤ w.incr_arr_update.max_level = ground (arith, within) in
                let below : level < n = omega (arith, h.queued.arr_len, h.queued.arr.bound) in
                arrival_levels-Ends rounds (suc level) w' (omega arith) (omega arith) sound))
          (λ past. h)

    required_levels-Ends : (level : ℕ) → Keeps tg n (required_levels F visitor tg tc dc level)
    unfolding required_levels
    required_levels-Ends zero w h = h
    required_levels-Ends (suc level) w h =
        Ends-branch (IsSound tg n) (leb w.incr_req_update.min_level level) _ _
          (λ within.
            Ends-bind (IsSound tg n) (IsSound tg n) (required_level F visitor tg tc dc level w) _
              (required_level-Ends level w h) (λ w' sound. required_levels-Ends level w' sound))
          (λ past. h)

    pub do_required_traversal-Keeps : Keeps tg n (do_required_traversal F visitor tg tc dc)
    unfolding do_required_traversal
    do_required_traversal-Keeps w h = required_levels-Ends (suc w.incr_req_update.max_level) w h

  module _ (dc : DelayCalculator F) where
    update_node_slack-Keeps : (id : NodeId) → Keeps tg n (update_node_slack F visitor tg dc id)
    unfolding update_node_slack
    update_node_slack-Keeps id w h =
        Ends-bind (λ es. Unit {0}) (IsSound tg n) (node_in_edges tg id) _
          (at-Ends tg.node_in_edges id)
          (λ in_edges found.
            Ends-bind (IsSound tg n) (IsSound tg n)
              (on_tables F visitor tg (λ s. for_each in_edges s visitor.reset_edge) w) _
              (on_tables-Keeps F visitor finishes tg n (λ s. for_each in_edges s visitor.reset_edge)
                (λ s.
                  Ends-for_each (λ t. Unit {0}) in_edges s visitor.reset_edge tt
                    (λ edge t finished. finishes.reset_edge edge t))
                w h)
              (λ w' sound.
                Ends-bind (IsSound tg n) (IsSound tg n)
                  (on_tables F visitor tg (visitor.reset_node_slack_tags id) w') _
                  (on_tables-Keeps F visitor finishes tg n (visitor.reset_node_slack_tags id)
                    (finishes.reset_slack id) w' sound)
                  (λ w'' sound'.
                    Ends-bind (λ r. IsSound tg n r.1) (IsSound tg n)
                      (on_node F visitor tg (visitor.slack_traverse_node tg dc id) w'') _
                      (on_node-Keeps F visitor finishes tg n (visitor.slack_traverse_node tg dc id)
                        w'' (finishes.slack tg dc id) sound')
                      (λ r sound''. sound''))))

    pub do_update_slack-Keeps : Keeps tg n (do_update_slack F visitor tg dc)
    unfolding do_update_slack
    do_update_slack-Keeps w h =
        Ends-for_each (IsSound tg n) (sort w.nodes_modified)
          (record w { nodes_modified = sort w.nodes_modified }) _
          record {
            queued = record {
              arr = h.queued.arr;
              req = h.queued.req;
              arr_len = h.queued.arr_len;
              req_len = h.queued.req_len;
            };
            invalidated = h.invalidated;
          }
          update_node_slack-Keeps
