-- ===== src/Analysis/IncrTraversal/Enqueue.antt =====
-- What a walker of libtatum/tatum/graph_walkers/SerialIncrWalker.hpp keeps while it fills its queues.
use tatum.Prelude.{
  ℕ, ◌≡◌, refl, ◌∙◌, inl, inr, Bool, false, none, some, List, arith, length, ltb, Bool-cases,
  get_elem?_out, ltb→lt,
}
use tatum.Result.{Result, ok, err}
use tatum.Result.Ends.{
  Ends, Ends-branch, Ends-bind, Ends-mono, Ends-for_each, Ends-at, Returns→Ends,
}
use tatum.Container.{StrongId, at, insert}
use tatum.Graph.{TimingGraph, NodeId, EdgeId, LevelId, node_level, edge_sink_node, edge_src_node}
use tatum.Analysis.Queue.{Queue, is_marked, mark, enqueue_node}
use tatum.Analysis.Queue.Marks.{mark_lem}
use tatum.Analysis.Queue.Contents.{IsQueue, enqueue_node-IsQueue}
use tatum.Analysis.Incremental.{
  IncrWalk, invalidate_edge, enqueue_arr_node, enqueue_req_node, enqueue_sinks, enqueue_sources,
  enqueue_modified_node, prepare_edge,
}
use tatum.Analysis.Incremental.Edges.{IsInvalidated, SameQueues, invalidate_edge-IsInvalidated}
use tatum.Analysis.Incremental.Prepare.{Queued}

pub mark-Ends : (bits : List Bool) (id : StrongId) → Ends (λ bits'. Unit {0}) (mark bits id)
unfolding insert
mark-Ends bits none = λ e. cc
mark-Ends bits (some i) = let (bits', run, marks) = mark_lem bits i in rw run tt

pub at-Ends : {V : Type 0} (vec : List V) (id : StrongId) → Ends (λ v. Unit {0}) (at vec id)
at-Ends vec id = Ends-mono _ (λ v. Unit {0}) (at vec id) (Ends-at vec id) (λ v there. tt)

node_level-Ends : (tg : TimingGraph) (id : NodeId) → Ends (λ level. Unit {0}) (node_level tg id)
node_level-Ends tg id = elim (Bool-cases tg.is_levelized) [
  | inl levelized ↦ rw levelized (at-Ends tg.node_levels id)
  | inr not_levelized ↦ rw not_levelized tt
]

-- A queue stays well formed, with as many levels.
abbrev pub KeepsQueue : TimingGraph → Queue → Queue → Type 0
KeepsQueue tg q q' = IsQueue tg q' × (length q'.nodes_to_process ≡ length q.nodes_to_process)

module _ (tg : TimingGraph) (i : ℕ) (q : Queue) (h : IsQueue tg q) where
  enqueue_at :
      is_marked q.node_is_enqueued (some i) ≡ false
      → (level : Result LevelId) → node_level tg (some i) ≡ level
      → Ends (λ l. Unit {0}) level
      → Ends (KeepsQueue tg q) (enqueue_node tg (some i) q)
  unfolding enqueue_node
  enqueue_at new (err fault) is_level ends =
      let (bits, run, marks) = mark_lem q.node_is_enqueued i in
      rw (enqueue_node, new, run, is_level) ends
  enqueue_at new (ok none) is_level ends =
      let (bits, run, marks) = mark_lem q.node_is_enqueued i in
      rw (enqueue_node, new, run, is_level) (λ e. cc)
  enqueue_at new (ok (some l)) is_level ends =
      elim (Bool-cases (ltb l (length q.nodes_to_process))) [
        | inl in_range ↦
            Ends-mono _ (KeepsQueue tg q) (enqueue_node tg (some i) q)
              (Returns→Ends _ (enqueue_node tg (some i) q) (
                enqueue_node-IsQueue tg i l q h is_level
                  (ltb→lt l (length q.nodes_to_process) in_range)))
              (λ q' kept. (kept.0, kept.1))
        | inr out ↦
            let (bits, run, marks) = mark_lem q.node_is_enqueued i in
            rw
              (
                enqueue_node,
                new,
                run,
                is_level,
                get_elem?_out q.nodes_to_process l (ground (arith, out)),
              )
              (λ e. cc)
      ]

-- Any node: if it has no level in the queue, then the run stops.
pub enqueue_node-Ends :
    (tg : TimingGraph) (id : NodeId) (q : Queue)
    → IsQueue tg q
    → Ends (KeepsQueue tg q) (enqueue_node tg id q)
unfolding enqueue_node insert
enqueue_node-Ends tg none q h = λ e. cc
enqueue_node-Ends tg (some i) q h = elim (Bool-cases (is_marked q.node_is_enqueued (some i))) [
  | inl old ↦ rw (enqueue_node, old) (h, refl)
  | inr new ↦ enqueue_at tg i q h new (node_level tg (some i)) refl (node_level-Ends tg (some i))
]

module _ {S : Type 0} where
  pub invalidate_edge-Ends :
      (edge : EdgeId) (w : IncrWalk S)
      → IsInvalidated w
      → Ends (λ w'. IsInvalidated w' × SameQueues w w') (invalidate_edge edge w)
  unfolding invalidate_edge insert
  invalidate_edge-Ends none w h = λ e. cc
  invalidate_edge-Ends (some i) w h =
      Ends-mono _ _ (invalidate_edge (some i) w)
        (Returns→Ends _ (invalidate_edge (some i) w) (invalidate_edge-IsInvalidated i w h))
        (λ w' kept. (kept.0, kept.2))

module _ {S : Type 0} (tg : TimingGraph) (n : ℕ) where
  -- What a traversal keeps.
  pub record IsSound (w : IncrWalk S) : Type 0 where
    pub queued : Queued tg n w
    pub invalidated : IsInvalidated w

  abbrev pub Keeps : (IncrWalk S → Result (IncrWalk S)) → Type 0
  Keeps run = (w : IncrWalk S) → IsSound w → Ends IsSound (run w)

  invalidate_edge-Keeps : (edge : EdgeId) → Keeps (invalidate_edge edge)
  invalidate_edge-Keeps edge w h =
      Ends-mono _ IsSound (invalidate_edge edge w) (invalidate_edge-Ends edge w h.invalidated)
        (λ w' kept. record {
          queued = record {
            arr = rw kept.1.arr h.queued.arr;
            req = rw kept.1.req h.queued.req;
            arr_len = rw kept.1.arr h.queued.arr_len;
            req_len = rw kept.1.req h.queued.req_len;
          };
          invalidated = kept.0;
        })

  pub enqueue_arr_node-Keeps : (id : NodeId) (edge : EdgeId) → Keeps (enqueue_arr_node tg id edge)
  unfolding enqueue_arr_node
  enqueue_arr_node-Keeps id edge w h =
      Ends-bind IsSound IsSound (invalidate_edge edge w) _ (invalidate_edge-Keeps edge w h)
        (λ w' sound.
          Ends-bind (KeepsQueue tg w'.incr_arr_update) IsSound
            (enqueue_node tg id w'.incr_arr_update) _
            (enqueue_node-Ends tg id w'.incr_arr_update sound.queued.arr)
            (λ q queue. record {
              queued = record {
                arr = queue.0;
                req = sound.queued.req;
                arr_len = queue.1 ∙ sound.queued.arr_len;
                req_len = sound.queued.req_len;
              };
              invalidated = sound.invalidated;
            }))

  pub enqueue_req_node-Keeps : (id : NodeId) (edge : EdgeId) → Keeps (enqueue_req_node tg id edge)
  unfolding enqueue_req_node
  enqueue_req_node-Keeps id edge w h =
      Ends-bind IsSound IsSound (invalidate_edge edge w) _ (invalidate_edge-Keeps edge w h)
        (λ w' sound.
          Ends-bind (KeepsQueue tg w'.incr_req_update) IsSound
            (enqueue_node tg id w'.incr_req_update) _
            (enqueue_node-Ends tg id w'.incr_req_update sound.queued.req)
            (λ q queue. record {
              queued = record {
                arr = sound.queued.arr;
                req = queue.0;
                arr_len = sound.queued.arr_len;
                req_len = queue.1 ∙ sound.queued.req_len;
              };
              invalidated = sound.invalidated;
            }))

  pub prepare_edge-Keeps : (edge : EdgeId) → Keeps (prepare_edge tg edge)
  unfolding prepare_edge
  prepare_edge-Keeps edge w h =
      Ends-bind (λ snk. Unit {0}) IsSound (edge_sink_node tg edge) _
        (at-Ends tg.edge_sink_nodes edge)
        (λ snk_node found.
          Ends-bind IsSound IsSound (enqueue_arr_node tg snk_node edge w) _
            (enqueue_arr_node-Keeps snk_node edge w h)
            (λ w' sound.
              Ends-bind (λ src. Unit {0}) IsSound (edge_src_node tg edge) _
                (at-Ends tg.edge_src_nodes edge)
                (λ src_node found'. enqueue_req_node-Keeps src_node edge w' sound)))

  pub enqueue_sinks-Keeps : (edges : List EdgeId) → Keeps (enqueue_sinks tg edges)
  unfolding enqueue_sinks
  enqueue_sinks-Keeps edges w h = Ends-for_each IsSound edges w _ h (λ edge t sound.
      Ends-bind (λ snk. Unit {0}) IsSound (edge_sink_node tg edge) _
        (at-Ends tg.edge_sink_nodes edge)
        (λ snk_node found. enqueue_arr_node-Keeps snk_node edge t sound))

  pub enqueue_sources-Keeps : (edges : List EdgeId) → Keeps (enqueue_sources tg edges)
  unfolding enqueue_sources
  enqueue_sources-Keeps edges w h = Ends-for_each IsSound edges w _ h (λ edge t sound.
      Ends-bind (λ src. Unit {0}) IsSound (edge_src_node tg edge) _ (at-Ends tg.edge_src_nodes edge)
        (λ src_node found. enqueue_req_node-Keeps src_node edge t sound))

  pub enqueue_modified_node-Keeps : (id : NodeId) → Keeps (enqueue_modified_node id)
  unfolding enqueue_modified_node
  enqueue_modified_node-Keeps id w h =
      Ends-branch IsSound (is_marked w.node_is_modified id) _ _ (λ old. h)
        (λ new.
          Ends-bind (λ bits. Unit {0}) IsSound (mark w.node_is_modified id) _
            (mark-Ends w.node_is_modified id)
            (λ bits marked. record {
              queued = record {
                arr = h.queued.arr;
                req = h.queued.req;
                arr_len = h.queued.arr_len;
                req_len = h.queued.req_len;
              };
              invalidated = h.invalidated;
            }))
