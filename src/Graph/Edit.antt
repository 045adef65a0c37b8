-- ===== src/Graph/Edit.antt =====
-- libtatum/tatum/TimingGraph.cpp: the functions that edit the graph. Each returns the new graph.
pub mod Refs
pub mod Consistent
pub mod Add
pub mod Remove
pub mod Trim
pub mod RemoveNode
pub mod Disable
pub mod History
pub mod Examples
use tatum.Prelude.{
  ℕ, zero, suc, Bool, true, false, Option, none, some, List, [], ◌∷◌, length, get_elem?, ◌==◌,
  if◌then◌else◌,
}
use tatum.Result.{Result, ok, assertion, out_of_range, check, or_fault, ◌>>=◌, ◌>>◌}
use tatum.Container.{at, store, push_back, same_id}
use tatum.Graph.{
  TimingGraph, NodeId, EdgeId, NodeType, EdgeType, valid_node_id, valid_edge_id, edge_src_node,
  edge_sink_node, edge_type, same_edge_type,
}

pub add_node : TimingGraph → NodeType → Result (TimingGraph × NodeId)
add_node g type = do
  let node_id = some (length g.node_ids)
  let g' = record g {
    is_levelized = false;
    node_ids = push_back g.node_ids node_id;
    node_types = push_back g.node_types type;
    node_out_edges = push_back g.node_out_edges [];
    node_in_edges = push_back g.node_in_edges [];
  }
  check (length g'.node_types == length g'.node_out_edges)
  check (length g'.node_types == length g'.node_in_edges)
  ok (g', node_id)

-- vec[id].push_back(e)
abbrev pub push_ref : List (List EdgeId) → NodeId → EdgeId → Result (List (List EdgeId))
push_ref vec id e = do es ← at vec id; store vec id (push_back es e)

-- The new edge and its attributes, before the nodes refer to it.
abbrev pub new_edge : TimingGraph → EdgeType → NodeId → NodeId → TimingGraph
new_edge g type src_node sink_node = record g {
  is_levelized = false;
  edge_ids = push_back g.edge_ids (some (length g.edge_ids));
  edge_types = push_back g.edge_types type;
  edge_src_nodes = push_back g.edge_src_nodes src_node;
  edge_sink_nodes = push_back g.edge_sink_nodes sink_node;
  edges_disabled = push_back g.edges_disabled false;
}

pub add_edge : TimingGraph → EdgeType → NodeId → NodeId → Result (TimingGraph × EdgeId)
add_edge g type src_node sink_node = do
  check (valid_node_id g src_node)
  check (valid_node_id g sink_node)
  let edge_id = some (length g.edge_ids)
  let g' = new_edge g type src_node sink_node
  check (length g'.edge_sink_nodes == length g'.edge_src_nodes)
  outs ← push_ref g'.node_out_edges src_node edge_id
  ins ← push_ref g'.node_in_edges sink_node edge_id
  let g'' = record g' { node_out_edges = outs; node_in_edges = ins }
  t ← edge_type g'' edge_id
  check (same_edge_type t type)
  s ← edge_src_node g'' edge_id
  check (same_id s src_node)
  k ← edge_sink_node g'' edge_id
  check (same_id k sink_node)
  ok (g'', edge_id)

-- std::find over the references and the write of INVALID through the iterator; `none` is end().
pub invalidate : EdgeId → List EdgeId → Option (List EdgeId)
invalidate e [] = none
invalidate e (x ∷ xs) =
    if same_id x e
    then some (none ∷ xs)
    else elim (invalidate e xs) [ none ↦ none | some ys ↦ some (x ∷ ys) ]

-- The references of a node, with the first one to an edge made INVALID.
abbrev pub drop_ref : List (List EdgeId) → NodeId → EdgeId → Result (List (List EdgeId))
drop_ref vec id e = do es ← at vec id; es' ← or_fault (invalidate e es) assertion; store vec id es'

pub remove_edge : TimingGraph → EdgeId → Result TimingGraph
remove_edge g edge_id = do
  check (valid_edge_id g edge_id)
  src_node ← edge_src_node g edge_id
  outs ← drop_ref g.node_out_edges src_node edge_id
  sink_node ← edge_sink_node g edge_id
  ins ← drop_ref g.node_in_edges sink_node edge_id
  ids ← store g.edge_ids edge_id none
  ok (record g { is_levelized = false; node_out_edges = outs; node_in_edges = ins; edge_ids = ids })

-- Which of the two reference vectors of a node a loop walks.
pub data Direction : Type 0 where
  incoming outgoing : Direction

abbrev pub refs_of : Direction → TimingGraph → List (List EdgeId)
refs_of incoming g = g.node_in_edges
refs_of outgoing g = g.node_out_edges

-- for(e : node_*_edges(node_id)) { if(!e) continue; remove_edge(e); } from position `i` on. The
-- loop reads the vector in place, so it sees what `remove_edge` has written to it.
pub remove_refs : Direction → NodeId → ℕ → ℕ → TimingGraph → Result TimingGraph
remove_refs d node_id zero i g = ok g
remove_refs d node_id (suc rounds) i g = do
  es ← at (refs_of d g) node_id
  e ← or_fault (get_elem? es i) out_of_range
  elim e [
    | none ↦ remove_refs d node_id rounds (suc i) g
    | some k ↦ do g' ← remove_edge g (some k); remove_refs d node_id rounds (suc i) g'
  ]

-- The whole loop. Its length is read once: `remove_edge` changes no vector's length.
pub remove_all_refs : Direction → NodeId → TimingGraph → Result TimingGraph
unfolding remove_refs
remove_all_refs d node_id g = do
  es ← at (refs_of d g) node_id
  remove_refs d node_id (length es) 0 g

pub remove_node : TimingGraph → NodeId → Result TimingGraph
remove_node g node_id = do
  check (valid_node_id g node_id)
  g₁ ← remove_all_refs incoming node_id (record g { is_levelized = false })
  g₂ ← remove_all_refs outgoing node_id g₁
  ids ← store g₂.node_ids node_id none
  ok (record g₂ { node_ids = ids })

abbrev pub same_bool : Bool → Bool → Bool
same_bool true b = b
same_bool false true = false
same_bool false false = true

pub disable_edge : TimingGraph → EdgeId → Bool → Result TimingGraph
disable_edge g edge_id disable = do
  check (valid_edge_id g edge_id)
  old ← at g.edges_disabled edge_id
  flags ← store g.edges_disabled edge_id disable
  ok (record g {
    is_levelized = if same_bool old disable then g.is_levelized else false;
    edges_disabled = flags;
  })
