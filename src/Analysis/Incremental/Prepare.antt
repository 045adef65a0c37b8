-- ===== src/Analysis/Incremental/Prepare.antt =====
-- prepare_incr_update of libtatum/tatum/graph_walkers/SerialIncrWalker.hpp: what an update starts with.
use tatum.Prelude.{
  ℕ, ◌<◌, ◌≤◌, ◌≡◌, ◌≢◌, refl, sym, subst, ◌∙◌, Bool, true, false, ◌||◌, some, List, [], ◌∷◌, arith,
  length, if◌then◌else◌,
}
use tatum.Result.{Result, ok, err, out_of_range, for_each}
use tatum.Result.Ends.{Returns, Returns-bind, Returns-mono, Returns→ok}
use tatum.Container.{same_id}
use tatum.Container.Laws.{same_id_refl}
use tatum.Graph.{
  TimingGraph, NodeId, EdgeId, LevelId, levels, node_level, edge_sink_node, edge_src_node,
}
use tatum.Analysis.Queue.{
  Queue, is_marked, enqueue_node, last_index, first_index, clear_queue, resize_levels,
}
use tatum.Analysis.Queue.Marks.{count}
use tatum.Analysis.Queue.Contents.{IsQueue, InRange, enqueue_node-IsQueue}
use tatum.Analysis.Queue.Clear.{clear_queue_shrunk, clear_queue-IsQueue}
use tatum.Analysis.Incremental.{
  IncrWalk, enqueue_arr_node, enqueue_req_node, prepare_edge, prepare_incr_update, clear_modified,
}
use tatum.Analysis.Incremental.Edges.{IsInvalidated, invalidate_edge_old}

abbrev is_node : Result NodeId → NodeId → Bool
is_node (err fault) n = false
is_node (ok m) n = same_id m n

-- Whether a node is the sink, or the source, of one of the edges.
abbrev pub is_sink_of : TimingGraph → List EdgeId → NodeId → Bool
is_sink_of tg [] n = false
is_sink_of tg (e ∷ es) n = is_node (edge_sink_node tg e) n || is_sink_of tg es n

abbrev pub is_source_of : TimingGraph → List EdgeId → NodeId → Bool
is_source_of tg [] n = false
is_source_of tg (e ∷ es) n = is_node (edge_src_node tg e) n || is_source_of tg es n

-- A node that has one of the first `n` levels.
pub record Levelled (tg : TimingGraph) (n : ℕ) (node : Result NodeId) : Type 0 where
  pub id : ℕ
  pub level : ℕ
  pub is_id : node ≡ ok (some id)
  pub at_level : node_level tg (some id) ≡ ok (some level)
  pub in_range : level < n

-- The ids of the levels of a levelized graph that has at least one; the first of them is one of `n`.
pub record HasLevels (tg : TimingGraph) (n : ℕ) : Type 0 where
  pub ids : List LevelId
  pub last : ℕ
  pub first : ℕ
  pub is_levels : levels tg ≡ ok ids
  pub is_last : last_index ids ≡ ok last
  pub is_first : first_index ids ≡ ok first
  pub many : n ≡ length ids
  pub first_in : first < n

-- An edge from and to such nodes.
pub record Joined (tg : TimingGraph) (n : ℕ) (edge : EdgeId) : Type 0 where
  pub to_sink : Levelled tg n (edge_sink_node tg edge)
  pub from_source : Levelled tg n (edge_src_node tg edge)

shuffle : (a b c : Bool) → (b || ((a || false) || c)) ≡ ((a || b) || c)
shuffle true true c = refl
shuffle true false c = refl
shuffle false true c = refl
shuffle false false c = refl

or_false_end : (a : Bool) → (a || false) ≡ a
or_false_end true = refl
or_false_end false = refl

or_false : (a c : Bool) → (a || c) ≡ ((a || false) || c)
or_false true c = refl
or_false false c = refl

-- An edge of the list is marked.
marked_of : (b : Bool) (n : ℕ) → n ≢ 0 → n ≡ (if b then 1 else 0) → b ≡ true
marked_of true n h e = refl
marked_of false n h e = absurd (h e)

pub cleared_queue :
    (tg : TimingGraph) (n : ℕ) (q : Queue)
    → HasLevels tg n
    → InRange q
    → q.max_level < n
    → (q' : Queue) × (clear_queue tg (resize_levels n q) ≡ ok q')
      × (IsQueue tg q'
          × (length q'.nodes_to_process ≡ n)
          × ((m : NodeId) → is_marked q'.node_is_enqueued m ≡ false))
cleared_queue tg n q g range fits = Returns→ok _ (clear_queue tg (resize_levels n q)) (
    clear_queue-IsQueue tg q g.ids n g.last g.first range g.is_levels g.is_last g.is_first g.many
      fits g.first_in)

module _ {S : Type 0} (tg : TimingGraph) (n : ℕ) where
  -- Both queues are queues of the graph for `n` levels.
  pub record Queued (w : IncrWalk S) : Type 0 where
    pub arr : IsQueue tg w.incr_arr_update
    pub req : IsQueue tg w.incr_req_update
    pub arr_len : length w.incr_arr_update.nodes_to_process ≡ n
    pub req_len : length w.incr_req_update.nodes_to_process ≡ n

  -- What some edges, which are invalidated, add to the queues.
  pub record Prepared (edges : List EdgeId) (w w' : IncrWalk S) : Type 0 where
    pub queued : Queued w'
    pub arrivals :
        (m : NodeId)
        → is_marked w'.incr_arr_update.node_is_enqueued m
          ≡ (is_sink_of tg edges m || is_marked w.incr_arr_update.node_is_enqueued m)
    pub requireds :
        (m : NodeId)
        → is_marked w'.incr_req_update.node_is_enqueued m
          ≡ (is_source_of tg edges m || is_marked w.incr_req_update.node_is_enqueued m)
    pub same_edges : w'.invalidated_edges ≡ w.invalidated_edges
    pub same_bits : w'.edge_invalidated ≡ w.edge_invalidated
    pub same_tables : w'.tables ≡ w.tables

  module _ (edge : EdgeId) (w : IncrWalk S) where
    prepare_edge-Prepared :
        Joined tg n edge
        → is_marked w.edge_invalidated edge ≡ true
        → Queued w
        → Returns (Prepared (edge ∷ []) w) (prepare_edge tg edge w)
    unfolding prepare_edge enqueue_arr_node enqueue_req_node
    prepare_edge-Prepared j old q =
        let sink = j.to_sink in
        let source = j.from_source in
        let (arr, arr_run, arr_is) =
          Returns→ok _ (enqueue_node tg (some sink.id) w.incr_arr_update) (
            enqueue_node-IsQueue tg sink.id sink.level w.incr_arr_update q.arr sink.at_level
              (subst (λ x. sink.level < x) (sym q.arr_len) sink.in_range)) in
        let (req, req_run, req_is) =
          Returns→ok _ (enqueue_node tg (some source.id) w.incr_req_update) (
            enqueue_node-IsQueue tg source.id source.level w.incr_req_update q.req source.at_level
              (subst (λ x. source.level < x) (sym q.req_len) source.in_range)) in
        rw
          (
            prepare_edge,
            sink.is_id,
            enqueue_arr_node,
            invalidate_edge_old edge w old,
            arr_run,
            source.is_id,
            enqueue_req_node,
            invalidate_edge_old edge (record w { incr_arr_update = arr }) old,
            req_run,
          )
          record {
            queued = record {
              arr = arr_is.0;
              req = req_is.0;
              arr_len = arr_is.1 ∙ q.arr_len;
              req_len = req_is.1 ∙ q.req_len;
            };
            arrivals = λ m. arr_is.2 m ∙ rw sink.is_id (or_false (same_id (some sink.id) m) _);
            requireds = λ m. req_is.2 m ∙ rw source.is_id (or_false (same_id (some source.id) m) _);
            same_edges = refl;
            same_bits = refl;
            same_tables = refl;
          }

  prepare_loop :
      (edges : List EdgeId) (w : IncrWalk S)
      → ((e : EdgeId) → count e edges ≢ 0 → Joined tg n e)
      → ((e : EdgeId) → count e edges ≢ 0 → is_marked w.edge_invalidated e ≡ true)
      → Queued w
      → Returns (Prepared edges w) (for_each edges w (prepare_edge tg))
  unfolding for_each
  prepare_loop [] w joined old q = record {
    queued = q;
    arrivals = λ m. refl;
    requireds = λ m. refl;
    same_edges = refl;
    same_bits = refl;
    same_tables = refl;
  }
  prepare_loop (e ∷ es) w joined old q =
      let head : count e (e ∷ es) ≢ 0 = rw (same_id_refl e) (λ z. absurd (omega arith)) in
      let tail : (x : EdgeId) → count x es ≢ 0 → count x (e ∷ es) ≢ 0 =
        λ x some_left. ground arith in
      Returns-bind (Prepared (e ∷ []) w) (Prepared (e ∷ es) w) (prepare_edge tg e w) _
        (prepare_edge-Prepared e w (joined e head) (old e head) q)
        (λ t p.
          Returns-mono (Prepared es t) (Prepared (e ∷ es) w) (for_each es t (prepare_edge tg))
            (prepare_loop es t (λ x some_left. joined x (tail x some_left))
              (λ x some_left. rw p.same_bits (old x (tail x some_left))) p.queued)
            (λ t' p'. record {
              queued = p'.queued;
              arrivals = λ m.
                  p'.arrivals m
                  ∙ rw (p.arrivals m)
                      (shuffle (is_node (edge_sink_node tg e) m) (is_sink_of tg es m) _);
              requireds = λ m.
                  p'.requireds m
                  ∙ rw (p.requireds m)
                      (shuffle (is_node (edge_src_node tg e) m) (is_source_of tg es m) _);
              same_edges = p'.same_edges ∙ p.same_edges;
              same_bits = p'.same_bits ∙ p.same_bits;
              same_tables = p'.same_tables ∙ p.same_tables;
            }))

  -- A walker that can start an update, also if its queues are those of another graph: none of them came
  -- to a level that this graph has not.
  pub record IsReady (w : IncrWalk S) : Type 0 where
    pub invalidated : IsInvalidated w
    pub arr_range : InRange w.incr_arr_update
    pub req_range : InRange w.incr_req_update
    pub arr_in : w.incr_arr_update.max_level < n
    pub req_in : w.incr_req_update.max_level < n

  -- Let the graph have levels (it is levelized, its first and its last level are valid, and the first is
  -- one of as many as there are), the walker be ready (its list of invalidated edges agrees with its bitset,
  -- only the levels from min_level to max_level of its queues have nodes, and neither queue came
  -- to a level that the graph has not), and each invalidated edge join two nodes that have a level of
  -- the graph. Then the call returns. Its queues are well formed, with one list for each level of the
  -- graph; the arrival queue has just the sinks and the required queue just the sources of the
  -- invalidated edges, and the list of these edges, its bitset and the tables are what they were.
  pub prepare_incr_update-Prepared :
      (w : IncrWalk S)
      → HasLevels tg n
      → IsReady w
      → ((e : EdgeId) → count e w.invalidated_edges ≢ 0 → Joined tg n e)
      → Returns
          (λ w'.
            Queued w'
            × ((m : NodeId)
                → is_marked w'.incr_arr_update.node_is_enqueued m
                  ≡ is_sink_of tg w.invalidated_edges m)
            × ((m : NodeId)
                → is_marked w'.incr_req_update.node_is_enqueued m
                  ≡ is_source_of tg w.invalidated_edges m)
            × (w'.invalidated_edges ≡ w.invalidated_edges)
            × (w'.edge_invalidated ≡ w.edge_invalidated)
            × (w'.tables ≡ w.tables))
          (prepare_incr_update tg w)
  unfolding prepare_incr_update
  prepare_incr_update-Prepared w g h joined =
      let (arr, arr_run, arr_is) = cleared_queue tg n w.incr_arr_update g h.arr_range h.arr_in in
      let (req, req_run, req_is) = cleared_queue tg n w.incr_req_update g h.req_range h.req_in in
      let start = record (clear_modified w) { incr_arr_update = arr; incr_req_update = req } in
      rw (prepare_incr_update, g.is_levels, sym g.many, arr_run, req_run)
        (Returns-mono (Prepared w.invalidated_edges start) _
          (for_each w.invalidated_edges start (prepare_edge tg))
          (prepare_loop w.invalidated_edges start joined
            (λ e some_left. marked_of _ _ some_left (h.invalidated e))
            record { arr = arr_is.0; req = req_is.0; arr_len = arr_is.1; req_len = req_is.1 })
          (λ w' p. (
            p.queued,
            λ m.
                p.arrivals m ∙ rw (arr_is.2 m) (or_false_end (is_sink_of tg w.invalidated_edges m)),
            λ m.
                p.requireds m
                ∙ rw (req_is.2 m) (or_false_end (is_source_of tg w.invalidated_edges m)),
            p.same_edges,
            p.same_bits,
            p.same_tables,
          )))

  -- A walker whose arrival queue came, in an earlier update, to a level that the graph does not have any
  -- more stops with an index that is out of range.
  pub prepare_incr_update_shrunk :
      (w : IncrWalk S) (ls : List LevelId)
      → levels tg ≡ ok ls
      → w.incr_arr_update.min_level ≤ w.incr_arr_update.max_level
      → length ls ≤ w.incr_arr_update.max_level
      → prepare_incr_update tg w ≡ err out_of_range
  unfolding prepare_incr_update
  prepare_incr_update_shrunk w ls is_levels reached fewer =
      rw
        (
          prepare_incr_update,
          is_levels,
          clear_queue_shrunk tg w.incr_arr_update (length ls) reached fewer,
        )
        refl
