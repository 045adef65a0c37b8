-- ===== src/Graph/Levelize.antt =====
-- libtatum/tatum/TimingGraph.cpp: the levels of a timing graph.
pub mod Fuel
pub mod Open
pub mod Order
pub mod Visit
pub mod Levels
pub mod Total
pub mod Examples
use tatum.Prelude.{
  ℕ, zero, suc, ◌-◌, true, false, none, some, List, [], ◌∷◌, length, replicate, ltb, ◌==◌,
  if◌then◌else◌,
}
use tatum.Result.{Result, ok, err, out_of_fuel, check, ◌>>=◌, ◌>>◌, for_each}
use tatum.Container.{at, store, push_back}
use tatum.Graph.{
  TimingGraph, NodeId, EdgeId, LevelId, source, sink, same_node_type, node_type, edge_disabled,
  edge_sink_node, node_out_edges, node_num_active_in_edges,
}

-- What the first loop fills in: the fan-in counts, the first level and the primary inputs.
pub record Seeds : Type 0 where
  pub fanin_remaining : List ℕ
  pub first_level : List NodeId
  pub inputs : List NodeId

pub seed_node : TimingGraph → NodeId → Seeds → Result Seeds
seed_node g node_id s = do
  node_fanin ← node_num_active_in_edges g node_id
  remaining ← store s.fanin_remaining node_id node_fanin
  let s' = record s { fanin_remaining = remaining }
  elim (node_fanin == 0) [
    | true ↦ do
      type ← node_type g node_id
      ok (record s' {
        first_level = push_back s.first_level node_id;
        inputs = if same_node_type type source then push_back s.inputs node_id else s.inputs;
      })
    | false ↦ ok s'
  ]

pub seed : TimingGraph → Result Seeds
unfolding seed_node for_each
seed g =
    for_each g.node_ids
      (record { fanin_remaining = replicate (length g.node_ids) 0; first_level = []; inputs = [] })
      (seed_node g)

-- The state of the walk within one level: `next_level` is level_nodes_[level_idx + 1].
pub record Walk : Type 0 where
  pub fanin_remaining : List ℕ
  pub next_level : List NodeId
  pub last_level : List NodeId

-- A node whose fan-in has all been seen goes into the next level, and without fan-out into the last.
pub place : TimingGraph → NodeId → Walk → Result Walk
place g sink_node w = do
  outs ← node_out_edges g sink_node
  elim outs [
    | [] ↦ ok (record w { last_level = push_back w.last_level sink_node })
    | _ ∷ _ ↦ ok (record w { next_level = push_back w.next_level sink_node })
  ]

pub visit_edge : TimingGraph → EdgeId → Walk → Result Walk
unfolding place
visit_edge g edge_id w = do
  disabled ← edge_disabled g edge_id
  elim disabled [
    | true ↦ ok w
    | false ↦ do
      sink_node ← edge_sink_node g edge_id
      left ← at w.fanin_remaining sink_node
      check (ltb 0 left)
      remaining ← store w.fanin_remaining sink_node (left - 1)
      let w' = record w { fanin_remaining = remaining }
      elim (left - 1 == 0) [ true ↦ place g sink_node w' | false ↦ ok w' ]
  ]

pub visit_node : TimingGraph → NodeId → Walk → Result Walk
unfolding visit_edge for_each
visit_node g node_id w = do es ← node_out_edges g node_id; for_each es w (visit_edge g)

-- The outcome of the walk: the levels but the last, and the last.
pub record Walked : Type 0 where
  pub levels : List (List NodeId)
  pub last_level : List NodeId

-- while(inserted_node_in_level): `current` is the level that the round inspects.
pub walk : TimingGraph → ℕ → List NodeId → List (List NodeId) → List ℕ → List NodeId → Result Walked
unfolding visit_node for_each
walk g zero current levels remaining last = err out_of_fuel
walk g (suc fuel) current levels remaining last = do
  w ←
      for_each current (record { fanin_remaining = remaining; next_level = []; last_level = last })
        (visit_node g)
  elim w.next_level [
    | [] ↦ ok (record { levels = levels; last_level = w.last_level })
    | x ∷ xs ↦
        walk g fuel w.next_level (push_back levels w.next_level) w.fanin_remaining w.last_level
  ]

-- The ids 0, 1, ... of as many levels as there are.
pub level_range {ℓ} : {A : Type ℓ} → ℕ → List A → List LevelId
level_range i [] = []
level_range i (_ ∷ ls) = some i ∷ level_range (suc i) ls

-- The nodes of a list that are sinks.
pub sinks_of : TimingGraph → List NodeId → Result (List NodeId)
sinks_of g [] = ok []
sinks_of g (n ∷ ns) = do
  type ← node_type g n
  rest ← sinks_of g ns
  ok (if same_node_type type sink then n ∷ rest else rest)

-- for(node : level_nodes_[level]) node_levels_[node] = level;
pub mark_level : LevelId → List NodeId → List LevelId → Result (List LevelId)
unfolding for_each
mark_level level nodes node_levels = for_each nodes node_levels (λ n m. store m n level)

pub mark_levels : ℕ → List (List NodeId) → List LevelId → Result (List LevelId)
unfolding mark_level
mark_levels i [] node_levels = ok node_levels
mark_levels i (nodes ∷ rest) node_levels = do
  node_levels' ← mark_level (some i) nodes node_levels
  mark_levels (suc i) rest node_levels'

pub force_levelize : TimingGraph → Result TimingGraph
unfolding seed walk level_range sinks_of mark_levels
force_levelize g = do
  s ← seed g
  w ← walk g (suc (length g.node_ids)) s.first_level (s.first_level ∷ []) s.fanin_remaining []
  let levels = push_back w.levels w.last_level
  outputs ← sinks_of g w.last_level
  node_levels ← mark_levels 0 levels (replicate (length g.node_ids) none)
  ok (record g {
    level_nodes = levels;
    level_ids = level_range 0 levels;
    node_levels = node_levels;
    primary_inputs = s.inputs;
    logical_outputs = outputs;
    is_levelized = true;
  })

pub levelize : TimingGraph → Result TimingGraph
unfolding force_levelize
levelize g = elim g.is_levelized [ true ↦ ok g | false ↦ force_levelize g ]
