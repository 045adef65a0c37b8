-- ===== src/Analysis/Queue/Contents.antt =====
-- What a queue of libtatum/tatum/graph_walkers/SerialIncrWalker.hpp (t_incr_traversal_update) holds.
use tatum.Prelude.{
  ℕ, ◌<◌, ◌≤◌, ◌≡◌, refl, sym, ◌∙◌, ◌⊎◌, inl, inr, Bool, true, false, ◌||◌, ◌&&◌, none, some, [],
  arith, length, get_or, set, ◌==◌, if◌then◌else◌, get_or-set, length-set, Bool-cases,
}
use tatum.Result.{Result, ok, err}
use tatum.Result.Ends.{Returns}
use tatum.Container.{same_id, push_back}
use tatum.Container.Laws.{at_in, store_in, same_id→eq}
use tatum.Graph.{TimingGraph, NodeId, LevelId, node_level}
use tatum.Analysis.Queue.{Queue, is_marked, enqueue_node, smaller, larger}
use tatum.Analysis.Queue.Marks.{count, count-push, mark_lem}

abbrev is_index : Result LevelId → ℕ → Bool
is_index (err fault) l = false
is_index (ok none) l = false
is_index (ok (some level)) l = level == l

-- Whether a node is at a level.
abbrev pub lies_in : TimingGraph → NodeId → ℕ → Bool
lies_in tg n l = is_index (node_level tg n) l

-- Only the lists of the levels from min_level to max_level can have nodes.
abbrev pub InRange : Queue → Type 0
InRange q = (l : ℕ) → (l < q.min_level) ⊎ (q.max_level < l) → get_or q.nodes_to_process l [] ≡ []

-- A marked node is once in the list of its level, and no other node is in a list; only the levels in range
-- have nodes.
pub record IsQueue (tg : TimingGraph) (q : Queue) : Type 0 where
  pub once :
      (n : NodeId) (l : ℕ)
      → count n (get_or q.nodes_to_process l [])
        ≡ (if is_marked q.node_is_enqueued n && lies_in tg n l then 1 else 0)
  pub range : InRange q
  pub bound : q.max_level < length q.nodes_to_process

-- The queue after a node that it had not was put at the end of the list of a level: the other lists are
-- what they were, and the range of levels is the least that has the old one and this level.
pub record Enqueued (i l : ℕ) (q q' : Queue) : Type 0 where
  pub marks :
      (m : NodeId)
      → is_marked q'.node_is_enqueued m ≡ (same_id (some i) m || is_marked q.node_is_enqueued m)
  pub lists :
      (k : ℕ)
      → get_or q'.nodes_to_process k [] ≡ (
          if l == k
          then push_back (get_or q.nodes_to_process l []) (some i)
          else get_or q.nodes_to_process k [])
  pub lower : (q'.min_level ≤ l) × (q'.min_level ≤ q.min_level)
  pub least : (q'.min_level ≡ l) ⊎ (q'.min_level ≡ q.min_level)
  pub upper : (l ≤ q'.max_level) × (q.max_level ≤ q'.max_level)
  pub greatest : (q'.max_level ≡ l) ⊎ (q'.max_level ≡ q.max_level)
  pub len : length q'.nodes_to_process ≡ length q.nodes_to_process

module _ (tg : TimingGraph) (i l : ℕ) (q : Queue) where
  pub enqueue_new :
      is_marked q.node_is_enqueued (some i) ≡ false
      → node_level tg (some i) ≡ ok (some l)
      → l < length q.nodes_to_process
      → (q' : Queue) × (enqueue_node tg (some i) q ≡ ok q') × Enqueued i l q q'
  unfolding enqueue_node
  enqueue_new new level in_range =
      let (bits, marked, marks) = mark_lem q.node_is_enqueued i in
      let nodes = get_or q.nodes_to_process l [] in
      (
        record {
          nodes_to_process = set q.nodes_to_process l (push_back nodes (some i));
          min_level = smaller q.min_level l;
          max_level = larger q.max_level l;
          node_is_enqueued = bits;
        },
        rw
            (
              enqueue_node,
              new,
              marked,
              level,
              at_in q.nodes_to_process l [] in_range,
              store_in q.nodes_to_process l (push_back nodes (some i)) in_range,
            )
            refl,
        record {
          marks = marks;
          lists = λ k. get_or-set q.nodes_to_process l k (push_back nodes (some i)) [] in_range;
          lower = (ground arith, ground arith);
          least = ground arith;
          upper = (ground arith, ground arith);
          greatest = ground arith;
          len = length-set q.nodes_to_process l (push_back nodes (some i));
        },
      )

  module _ (q' : Queue) (e : Enqueued i l q q') (h : IsQueue tg q) where
    Enqueued-once :
        is_marked q.node_is_enqueued (some i) ≡ false
        → node_level tg (some i) ≡ ok (some l)
        → (n : NodeId) (k : ℕ)
        → count n (get_or q'.nodes_to_process k [])
          ≡ (if is_marked q'.node_is_enqueued n && lies_in tg n k then 1 else 0)
    Enqueued-once new level n k = elim (Bool-cases (same_id (some i) n)) [
      | inl same ↦
          let is_n : some i ≡ n = same_id→eq (some i) n same in
          let at_n : lies_in tg n k ≡ (l == k) = rw (sym is_n, level) refl in
          let new_n : is_marked q.node_is_enqueued n ≡ false = rw (sym is_n) new in
          rw (e.lists k, e.marks n, same, at_n)
            elim (Bool-cases (l == k)) [
              | inl here ↦
                  rw
                    (
                      here,
                      count-push n (some i) (get_or q.nodes_to_process l []),
                      same,
                      h.once n l,
                      new_n,
                    )
                    refl
              | inr away ↦ rw (away, h.once n k, new_n) refl
            ]
      | inr other ↦
          rw (e.lists k, e.marks n, other)
            elim (Bool-cases (l == k)) [
              | inl here ↦
                  let l_k : l ≡ k = ground (arith, here) in
                  rw
                    (
                      here,
                      count-push n (some i) (get_or q.nodes_to_process l []),
                      other,
                      h.once n l,
                      l_k,
                    )
                    ground arith
              | inr away ↦ rw (away, h.once n k) refl
            ]
    ]

    pub Enqueued-IsQueue :
        is_marked q.node_is_enqueued (some i) ≡ false
        → node_level tg (some i) ≡ ok (some l)
        → l < length q.nodes_to_process
        → IsQueue tg q'
    Enqueued-IsQueue new level in_range = record {
      once = Enqueued-once new level;
      range = λ k out. elim out [
        | inl below ↦
            let away : (l == k) ≡ false = ground (arith, below, e.lower.0) in
            e.lists k ∙ rw away (h.range k (inl (omega (arith, below, e.lower.1))))
        | inr above ↦
            let away : (l == k) ≡ false = ground (arith, above, e.upper.0) in
            e.lists k ∙ rw away (h.range k (inr (omega (arith, above, e.upper.1))))
      ];
      bound = rw e.len ground (arith, h.bound, e.greatest);
    }

-- Let a queue be well formed (a marked node is once in the list of its level, no other node is in a list,
-- only the lists from min_level to max_level have nodes, and max_level is below the number of lists), and
-- let a node have a level for which the queue has a list. Then the call returns a queue that is well formed too, with as
-- many lists, whose marked nodes are those that were marked and this one. If the node was marked,
-- then the queue is the old one. If not, then the node stands at the end of the list of its level,
-- the other lists are what they were, and min_level and max_level are the least and the greatest of
-- their old value and the node's level.
pub enqueue_node-IsQueue :
    (tg : TimingGraph) (i l : ℕ) (q : Queue)
    → IsQueue tg q
    → node_level tg (some i) ≡ ok (some l)
    → l < length q.nodes_to_process
    → Returns
        (λ q'.
          IsQueue tg q'
          × (length q'.nodes_to_process ≡ length q.nodes_to_process)
          × ((m : NodeId)
              → is_marked q'.node_is_enqueued m
                ≡ (same_id (some i) m || is_marked q.node_is_enqueued m))
          × (((is_marked q.node_is_enqueued (some i) ≡ true) × (q' ≡ q))
              ⊎ ((is_marked q.node_is_enqueued (some i) ≡ false) × Enqueued i l q q')))
        (enqueue_node tg (some i) q)
unfolding enqueue_node
enqueue_node-IsQueue tg i l q h level in_range =
    elim (Bool-cases (is_marked q.node_is_enqueued (some i))) [
      | inl old ↦
          rw (enqueue_node, old)
            (
              h,
              refl,
              λ m. elim (Bool-cases (same_id (some i) m)) [
                | inl same ↦ rw (same, sym (same_id→eq (some i) m same)) old
                | inr other ↦ rw other refl
              ],
              inl (refl, refl),
            )
      | inr new ↦
          let (q', run, e) = enqueue_new tg i l q new level in_range in
          rw run (Enqueued-IsQueue tg i l q q' e h new level in_range, e.len, e.marks, inr (new, e))
    ]
