-- ===== src/Graph/Search.antt =====
-- libtatum/tatum/TimingGraph.cpp: the nodes that reach a node, or that it reaches, within a
-- depth. The rounds that are left are `max_depth - depth + 1`.
use tatum.Prelude.{ℕ, zero, suc, Bool, true, false, List, [], ◌∷◌, none, some, ltb, if◌then◌else◌}
use tatum.Result.{Result, ok, ◌>>=◌, for_each}
use tatum.Container.{StrongId, push_back, same_id}
use tatum.Graph.{
  TimingGraph, NodeId, edge_disabled, edge_sink_node, edge_src_node, node_in_edges, node_out_edges,
}

pub find_transitive_fanin_nodes_recurr :
    TimingGraph → List NodeId → NodeId → ℕ → Result (List NodeId)
unfolding for_each
find_transitive_fanin_nodes_recurr tg nodes id zero = ok nodes
find_transitive_fanin_nodes_recurr tg nodes id (suc rounds) = do
  in_edges ← node_in_edges tg id
  for_each in_edges (push_back nodes id) (λ in_edge found. do
    disabled ← edge_disabled tg in_edge
    elim disabled [
      | true ↦ ok found
      | false ↦ do
        src_node ← edge_src_node tg in_edge
        find_transitive_fanin_nodes_recurr tg found src_node rounds
    ])

pub find_transitive_fanout_nodes_recurr :
    TimingGraph → List NodeId → NodeId → ℕ → Result (List NodeId)
unfolding for_each
find_transitive_fanout_nodes_recurr tg nodes id zero = ok nodes
find_transitive_fanout_nodes_recurr tg nodes id (suc rounds) = do
  out_edges ← node_out_edges tg id
  for_each out_edges (push_back nodes id) (λ out_edge found. do
    disabled ← edge_disabled tg out_edge
    elim disabled [
      | true ↦ ok found
      | false ↦ do
        sink_node ← edge_sink_node tg out_edge
        find_transitive_fanout_nodes_recurr tg found sink_node rounds
    ])

-- operator< on ids, where INVALID is -1.
abbrev pub id_before : StrongId → StrongId → Bool
id_before none none = false
id_before none (some j) = true
id_before (some i) none = false
id_before (some i) (some j) = ltb i j

-- An id put in its place in a sorted list without duplicates: std::sort, std::unique and erase.
pub place_id : StrongId → List StrongId → List StrongId
place_id x [] = x ∷ []
place_id x (y ∷ ys) =
    let rest = place_id x ys in
    if id_before x y then x ∷ y ∷ ys else if same_id x y then y ∷ ys else y ∷ rest

pub sort_unique : List StrongId → List StrongId
unfolding place_id
sort_unique [] = []
sort_unique (x ∷ xs) = place_id x (sort_unique xs)

pub find_transitive_fanin_nodes : TimingGraph → List NodeId → ℕ → Result (List NodeId)
unfolding for_each find_transitive_fanin_nodes_recurr sort_unique
find_transitive_fanin_nodes tg sinks max_depth = do
  nodes ←
      for_each sinks [] (λ id found. find_transitive_fanin_nodes_recurr tg found id (suc max_depth))
  ok (sort_unique nodes)

pub find_transitive_fanout_nodes : TimingGraph → List NodeId → ℕ → Result (List NodeId)
unfolding for_each find_transitive_fanout_nodes_recurr sort_unique
find_transitive_fanout_nodes tg sources max_depth = do
  nodes ←
      for_each sources []
        (λ id found. find_transitive_fanout_nodes_recurr tg found id (suc max_depth))
  ok (sort_unique nodes)

pub find_transitively_connected_nodes : TimingGraph → List NodeId → ℕ → Result (List NodeId)
unfolding for_each find_transitive_fanin_nodes_recurr find_transitive_fanout_nodes_recurr
    sort_unique
find_transitively_connected_nodes tg through_nodes max_depth = do
  nodes ← for_each through_nodes [] (λ through_node found. do
    found' ← find_transitive_fanin_nodes_recurr tg found through_node (suc max_depth)
    find_transitive_fanout_nodes_recurr tg found' through_node (suc max_depth))
  ok (sort_unique nodes)
