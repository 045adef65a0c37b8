-- ===== src/Analysis/Queue/Clear.antt =====
-- t_incr_traversal_update::clear of libtatum/tatum/graph_walkers/SerialIncrWalker.hpp.
use tatum.Prelude.{
  ℕ, zero, suc, ◌+◌, ◌-◌, ◌<◌, ◌≤◌, ◌≡◌, ◌⊎◌, refl, ◌∙◌, inl, inr, Bool, false, ◌&&◌, none, some,
  List, [], arith, length, get_or, set, leb, ltb, if◌then◌else◌, get_or-set, length-set, Bool-cases,
  ltb→lt,
}
use tatum.Result.{ok, err, out_of_range}
use tatum.Result.Ends.{Returns}
use tatum.Container.{resize}
use tatum.Container.Laws.{store_in}
use tatum.Graph.{TimingGraph, NodeId, LevelId, levels}
use tatum.Analysis.Queue.{
  Queue, is_marked, clear_levels, clear_queue, resize_levels, last_index, first_index,
}
use tatum.Analysis.Queue.Marks.{length-resize, get_or-resize}
use tatum.Analysis.Queue.Contents.{IsQueue, InRange}

-- A level among those that are cleared.
abbrev cleared : ℕ → ℕ → ℕ → Bool
cleared rounds from k = leb from k && ltb k (from + rounds)

clear_levels_lem :
    (rounds from : ℕ) (lists : List (List NodeId))
    → (0 < rounds → from + rounds ≤ length lists)
    → (lists' : List (List NodeId)) × (clear_levels rounds from lists ≡ ok lists')
      × (length lists' ≡ length lists)
      × ((k : ℕ) → get_or lists' k [] ≡ (if cleared rounds from k then [] else get_or lists k []))
unfolding clear_levels
clear_levels_lem zero from lists h = (
  lists,
  refl,
  refl,
  λ k. elim (Bool-cases (cleared zero from k)) [
    | inl both ↦ absurd (ground (arith, both))
    | inr out ↦ rw out refl
  ],
)
clear_levels_lem (suc rounds) from lists h =
    let len = length-set lists from [] in
    let fits = h (omega arith) in
    let (lists', run, len', kept) =
      clear_levels_lem rounds (suc from) (set lists from []) (λ some_left. omega (arith, len)) in
    (
      lists',
      rw (clear_levels, store_in lists from [] (omega arith), run) refl,
      len' ∙ len,
      λ k. kept k ∙ rw (get_or-set lists from k [] [] (omega arith)) (ground arith),
    )

pub is_marked-none : (m : NodeId) → is_marked [] m ≡ false
is_marked-none none = refl
is_marked-none (some i) = refl

module _ (q : Queue) (n : ℕ) where
  -- A level outside of the range of a queue has no node, also when the levels are not as many as before.
  empty_outside :
      InRange q
      → (k : ℕ) → cleared (suc q.max_level - q.min_level) q.min_level k ≡ false
      → get_or (resize q.nodes_to_process n []) k [] ≡ []
  empty_outside range k out =
      let beyond : (k < q.min_level) ⊎ (q.max_level < k) = ground (arith, out) in
      get_or-resize q.nodes_to_process n k [] ∙ rw (range k beyond) (ground arith)

-- A queue, of this graph or of an earlier one, can be cleared when the present graph, whose first and last levels are
-- given, still has the highest level that the queue came to. It then has the levels of the present
-- graph, and no node.
pub clear_queue-IsQueue :
    (tg : TimingGraph) (q : Queue) (ls : List LevelId) (n last first : ℕ)
    → InRange q
    → levels tg ≡ ok ls
    → last_index ls ≡ ok last
    → first_index ls ≡ ok first
    → n ≡ length ls
    → q.max_level < n
    → first < n
    → Returns
        (λ q'.
          IsQueue tg q'
          × (length q'.nodes_to_process ≡ n)
          × ((m : NodeId) → is_marked q'.node_is_enqueued m ≡ false))
        (clear_queue tg (resize_levels n q))
unfolding clear_queue resize_levels
clear_queue-IsQueue tg q ls n last first h is_ls is_last is_first many fits first_fits =
    let rounds = suc q.max_level - q.min_level in
    let lists = resize q.nodes_to_process n [] in
    let len : length lists ≡ n = length-resize q.nodes_to_process n [] in
    let (lists', run, len', kept) =
      clear_levels_lem rounds q.min_level lists (λ some_left. omega (arith, len, fits)) in
    let empty : (k : ℕ) → get_or lists' k [] ≡ [] = λ k.
      elim (Bool-cases (cleared rounds q.min_level k)) [
        | inl within ↦ kept k ∙ rw within refl
        | inr out ↦ kept k ∙ rw out (empty_outside q n h k out)
      ] in
    rw (clear_queue, run, is_ls, is_last, is_first)
      (
        record {
          once = λ m l. rw (empty l, is_marked-none m) refl;
          range = λ l out. empty l;
          bound = omega (arith, len, len', first_fits);
        },
        len' ∙ len,
        is_marked-none,
      )

clear_levels_out :
    (rounds from : ℕ) (lists : List (List NodeId))
    → 0 < rounds
    → length lists < from + rounds
    → clear_levels rounds from lists ≡ err out_of_range
unfolding clear_levels
clear_levels_out zero from lists some_left h = absurd (omega arith)
clear_levels_out (suc rounds) from lists some_left h = elim (Bool-cases (ltb from (length lists))) [
  | inl inside ↦
      let below = ltb→lt from (length lists) inside in
      rw (clear_levels, store_in lists from [] below)
        (clear_levels_out rounds (suc from) (set lists from []) (omega arith)
          (omega (arith, length-set lists from [])))
  | inr out ↦ rw (clear_levels, out) refl
]

-- A queue that came to a level that is not there any more cannot be cleared.
pub clear_queue_shrunk :
    (tg : TimingGraph) (q : Queue) (n : ℕ)
    → q.min_level ≤ q.max_level
    → n ≤ q.max_level
    → clear_queue tg (resize_levels n q) ≡ err out_of_range
unfolding clear_queue resize_levels
clear_queue_shrunk tg q n reached h =
    rw
      (
        clear_queue,
        clear_levels_out (suc q.max_level - q.min_level) q.min_level
            (resize q.nodes_to_process n []) (omega arith)
            (omega (arith, length-resize q.nodes_to_process n [])),
      )
      refl
