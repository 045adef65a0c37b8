-- ===== src/Analysis/Analyzers/Ends.antt =====
-- The updates of the incremental analyzers in libtatum/tatum/analyzers/, one after the other.
use tatum.Prelude.{ℕ, ◌<◌, ◌≡◌, refl, subst, Bool, true, false, not}
use tatum.Result.{for_each}
use tatum.Result.Ends.{Ends, Ends-bind, Ends-mono, Ends-for_each, Ends-check}
use tatum.Time.{Float}
use tatum.Graph.{TimingGraph, EdgeId}
use tatum.Constraints.{TimingConstraints}
use tatum.Analysis.{DelayCalculator}
use tatum.Analysis.Visitor.{GraphVisitor}
use tatum.Analysis.Queue.Clear.{is_marked-none}
use tatum.Analysis.Incremental.{IncrWalk, invalidate_edge, clear_invalidated_edges}
use tatum.Analysis.Incremental.Prepare.{HasLevels, IsReady}
use tatum.Analysis.IncrTraversal
use tatum.Analysis.IncrTraversal.Whole.{
  do_arrival_pre_traversal-Ends, do_required_pre_traversal-Ends, do_arrival_traversal-Ends,
}
use tatum.Analysis.IncrTraversal.Enqueue.{IsSound, invalidate_edge-Ends}
use tatum.Analysis.IncrTraversal.Keep.{Finishes}
use tatum.Analysis.IncrTraversal.Levels.{do_required_traversal-Keeps, do_update_slack-Keeps}
use tatum.Analysis.Analyzers.{
  IncrAnalyzer, first_arrival, first_required, update_incremental, update_part,
}

module _ {S : Type 0} (tg : TimingGraph) (n : ℕ) where
  invalidate_edge-IsReady :
      (edge : EdgeId) (w : IncrWalk S)
      → IsReady tg n w
      → Ends (IsReady tg n) (invalidate_edge edge w)
  invalidate_edge-IsReady edge w h =
      Ends-mono _ (IsReady tg n) (invalidate_edge edge w)
        (invalidate_edge-Ends edge w h.invalidated)
        (λ w' kept. record {
          invalidated = kept.0;
          arr_range = rw kept.1.arr h.arr_range;
          req_range = rw kept.1.req h.req_range;
          arr_in = rw kept.1.arr h.arr_in;
          req_in = rw kept.1.req h.req_in;
        })

  -- Between two updates.
  IsSound-IsReady : (w : IncrWalk S) → IsSound tg n w → IsReady tg n w
  IsSound-IsReady w h = record {
    invalidated = h.invalidated;
    arr_range = h.queued.arr.range;
    req_range = h.queued.req.range;
    arr_in = subst (λ x. w.incr_arr_update.max_level < x) h.queued.arr_len h.queued.arr.bound;
    req_in = subst (λ x. w.incr_req_update.max_level < x) h.queued.req_len h.queued.req.bound;
  }

  clear_invalidated_edges-IsReady :
      (w : IncrWalk S) → IsSound tg n w → IsReady tg n (clear_invalidated_edges w)
  clear_invalidated_edges-IsReady w h =
      let ready = IsSound-IsReady w h in
      record {
        invalidated = λ e. rw (is_marked-none e) refl;
        arr_range = ready.arr_range;
        req_range = ready.req_range;
        arr_in = ready.arr_in;
        req_in = ready.req_in;
      }

module _ (F : Float) {S : Type 0} (visitor : GraphVisitor F S) (finishes : Finishes visitor)
    (tg : TimingGraph) (n : ℕ) (g : HasLevels tg n) (tc : TimingConstraints F)
    (dc : DelayCalculator F) where
  first_arrival-Ends :
      (never : Bool) (w : IncrWalk S)
      → IsReady tg n w
      → Ends (IsReady tg n) (first_arrival F tg tc dc visitor never w)
  first_arrival-Ends false w h = h
  first_arrival-Ends true w h =
      Ends-bind (IsReady tg n) (IsReady tg n) (for_each tg.edge_ids w invalidate_edge) _
        (Ends-for_each (IsReady tg n) tg.edge_ids w invalidate_edge h
          (λ edge t ready. invalidate_edge-IsReady tg n edge t ready))
        (λ w' ready. do_arrival_pre_traversal-Ends F visitor finishes tg n g tc w' ready)

  first_required-Ends :
      (never : Bool) (w : IncrWalk S)
      → IsSound tg n w
      → Ends (IsSound tg n) (first_required F tg tc dc visitor never w)
  first_required-Ends false w h = h
  first_required-Ends true w h = do_required_pre_traversal-Ends F visitor finishes tg n g tc w h

  -- On a graph with levels, with a visitor whose operations come to an end, an incremental update from a
  -- walker that is ready does not use up its rounds: it stops with a fault, or returns and leaves the
  -- walker ready for the next update, with an analyzer that counts as updated.
  pub update_incremental-Ends :
      (a : IncrAnalyzer S)
      → IsReady tg n a.graph_walker
      → Ends
          (λ a'. IsReady tg n a'.graph_walker × (a'.never_updated ≡ false))
          (update_incremental F tg tc dc visitor a)
  unfolding update_incremental
  update_incremental-Ends a h =
      Ends-bind (IsReady tg n) _ (first_arrival F tg tc dc visitor a.never_updated a.graph_walker) _
        (first_arrival-Ends a.never_updated a.graph_walker h)
        (λ started ready.
          Ends-bind (IsSound tg n) _ (IncrTraversal.do_arrival_traversal F visitor tg tc dc started)
            _ (do_arrival_traversal-Ends F visitor finishes tg n g tc dc started ready)
            (λ arrived sound.
              Ends-bind (IsSound tg n) _ (first_required F tg tc dc visitor a.never_updated arrived)
                _ (first_required-Ends a.never_updated arrived sound)
                (λ ended sound'.
                  Ends-bind (IsSound tg n) _
                    (IncrTraversal.do_required_traversal F visitor tg tc dc ended) _
                    (do_required_traversal-Keeps F visitor finishes tg n tc dc ended sound')
                    (λ required sound''.
                      Ends-bind (IsSound tg n) _
                        (IncrTraversal.do_update_slack F visitor tg dc required) _
                        (do_update_slack-Keeps F visitor finishes tg n dc required sound'')
                        (λ slacks last.
                          (clear_invalidated_edges-IsReady tg n slacks last, refl))))))

  -- An analyzer of both that has updated.
  pub update_part-Ends :
      (a : IncrAnalyzer S)
      → IsReady tg n a.graph_walker
      → Ends (λ a'. IsReady tg n a'.graph_walker) (update_part F tg tc dc visitor a)
  unfolding update_part
  update_part-Ends a h =
      Ends-check (λ a'. IsReady tg n a'.graph_walker) (not a.never_updated) _
        (λ updated.
          Ends-bind (IsSound tg n) _
            (IncrTraversal.do_arrival_traversal F visitor tg tc dc a.graph_walker) _
            (do_arrival_traversal-Ends F visitor finishes tg n g tc dc a.graph_walker h)
            (λ arrived sound.
              Ends-bind (IsSound tg n) _
                (IncrTraversal.do_required_traversal F visitor tg tc dc arrived) _
                (do_required_traversal-Keeps F visitor finishes tg n tc dc arrived sound)
                (λ required sound'.
                  Ends-bind (IsSound tg n) _
                    (IncrTraversal.do_update_slack F visitor tg dc required) _
                    (do_update_slack-Keeps F visitor finishes tg n dc required sound')
                    (λ slacks last. IsSound-IsReady tg n slacks last))))
