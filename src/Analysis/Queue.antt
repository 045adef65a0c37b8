-- ===== src/Analysis/Queue.antt =====
-- libtatum/tatum/graph_walkers/SerialIncrWalker.hpp: t_incr_traversal_update, the nodes of each level that
-- an incremental traversal has to process, and the bitsets of the walker.
pub mod Marks
pub mod Contents
pub mod Clear
use tatum.Prelude.{
  ℕ, zero, suc, ◌-◌, Bool, true, false, none, some, List, [], ◌∷◌, get_or, ltb, if◌then◌else◌,
}
use tatum.Result.{Result, ok, err, out_of_range, ◌>>=◌}
use tatum.Container.{StrongId, at, store, push_back, resize, insert}
use tatum.Graph.{TimingGraph, NodeId, LevelId, levels, node_level}

-- is_enqueued, is_invalidated and is_modified: an id that has no bit is not marked.
abbrev pub is_marked : List Bool → StrongId → Bool
is_marked bits none = false
is_marked bits (some i) = get_or bits i false

-- mark_enqueued, mark_invalidated and mark_modified. The resize for INVALID makes the size 0.
abbrev pub mark : List Bool → StrongId → Result (List Bool)
mark bits id = insert false bits id true

pub record Queue : Type 0 where
  pub nodes_to_process : List (List NodeId)
  pub min_level : ℕ
  pub max_level : ℕ
  pub node_is_enqueued : List Bool

abbrev pub empty_queue : Queue
empty_queue = record { nodes_to_process = []; min_level = 0; max_level = 0; node_is_enqueued = [] }

-- std::min and std::max
abbrev pub smaller : ℕ → ℕ → ℕ
smaller a b = if ltb b a then b else a

abbrev pub larger : ℕ → ℕ → ℕ
larger a b = if ltb a b then b else a

-- The level of a node as an index. INVALID becomes -1, which is out of range.
abbrev pub level_index : LevelId → Result ℕ
level_index none = err out_of_range
level_index (some level) = ok level

unfoldable pub enqueue_node : TimingGraph → NodeId → Queue → Result Queue
unfolding insert
enqueue_node tg node_id q = elim (is_marked q.node_is_enqueued node_id) [
  | true ↦ ok q
  | false ↦ do
    enqueued ← mark q.node_is_enqueued node_id
    id ← node_level tg node_id
    level ← level_index id
    nodes ← at q.nodes_to_process (some level)
    lists ← store q.nodes_to_process (some level) (push_back nodes node_id)
    ok (record {
      nodes_to_process = lists;
      min_level = smaller q.min_level level;
      max_level = larger q.max_level level;
      node_is_enqueued = enqueued;
    })
]

-- for(level = from; ...) nodes_to_process[level].clear(), with the rounds that are left.
pub clear_levels : ℕ → ℕ → List (List NodeId) → Result (List (List NodeId))
clear_levels zero from lists = ok lists
clear_levels (suc rounds) from lists = do
  lists' ← store lists (some from) []
  clear_levels rounds (suc from) lists'

-- *(tg.levels().end() - 1) and *tg.levels().begin(), as numbers.
unfoldable pub last_index : List LevelId → Result ℕ
last_index [] = err out_of_range
last_index (level ∷ []) = level_index level
last_index (_ ∷ level ∷ rest) = last_index (level ∷ rest)

abbrev pub first_index : List LevelId → Result ℕ
first_index [] = err out_of_range
first_index (level ∷ _) = level_index level

-- The lists of the levels that the last update reached are emptied, and the range of levels is.
unfoldable pub clear_queue : TimingGraph → Queue → Result Queue
unfolding clear_levels last_index
clear_queue tg q = do
  lists ← clear_levels (suc q.max_level - q.min_level) q.min_level q.nodes_to_process
  ls ← levels tg
  last ← last_index ls
  first ← first_index ls
  ok (record {
    nodes_to_process = lists;
    min_level = last;
    max_level = first;
    node_is_enqueued = [];
  })

-- resize_incr_update_levels, for one of the two queues.
unfoldable pub resize_levels : ℕ → Queue → Queue
unfolding resize
resize_levels n q = record q { nodes_to_process = resize q.nodes_to_process n [] }
