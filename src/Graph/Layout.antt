-- ===== src/Graph/Layout.antt =====
-- libtatum/tatum/TimingGraph.cpp: `compress` and `optimize_layout`, which renumber the graph.
use tatum.Prelude.{ℕ, suc, none, some, List, [], ◌∷◌, ◌++◌, length, replicate, ◌==◌}
use tatum.Result.{Result, ok, check, ◌>>=◌, ◌>>◌}
use tatum.Container.{StrongId, store, is_valid}
use tatum.Graph.{TimingGraph, NodeId, EdgeId, node_in_edges, level_nodes, levels}
use tatum.Graph.Remap.{compress_ids, remap_nodes, remap_edges}
use tatum.Graph.Levelize.{levelize}
use tatum.Graph.Validate.{validate}

-- The maps from the old ids to the new: of the nodes, and of the edges.
abbrev pub GraphIdMaps : Type 0
GraphIdMaps = List NodeId × List EdgeId

-- The order in which old ids get the next new ids, with the map so far and the next id.
pub number_ids : List StrongId → List StrongId → ℕ → Result (List StrongId × ℕ)
number_ids [] id_map next = ok (id_map, next)
number_ids (old ∷ order) id_map next = do
  id_map' ← store id_map old (some next)
  number_ids order id_map' (suc next)

-- for(auto new_id : id_map) TATUM_ASSERT(new_id);
pub check_each : List StrongId → Result (Unit {0})
check_each [] = ok tt
check_each (id ∷ ids) = do check (is_valid id); check_each ids

-- The lists of a function of the ids, one after the other.
pub gather : (StrongId → Result (List StrongId)) → List StrongId → Result (List StrongId)
gather f [] = ok []
gather f (id ∷ ids) = do here ← f id; rest ← gather f ids; ok (here ++ rest)

-- The loops over the levels put each id into an order, and the ids are numbered in it.
pub renumber_in : List StrongId → ℕ → Result (List StrongId)
unfolding number_ids check_each
renumber_in order size = do
  numbered ← number_ids order (replicate size none) 0
  check_each numbered.0
  check (numbered.1 == size)
  ok numbered.0

pub optimize_node_layout : TimingGraph → Result (List NodeId)
unfolding gather renumber_in
optimize_node_layout g = do
  ls ← levels g
  order ← gather (level_nodes g) ls
  renumber_in order (length g.node_ids)

pub optimize_edge_layout : TimingGraph → Result (List EdgeId)
unfolding gather renumber_in
optimize_edge_layout g = do
  ls ← levels g
  order ← gather (λ level. level_nodes g level >>= gather (node_in_edges g)) ls
  renumber_in order (length g.edge_ids)

pub optimize_layout : TimingGraph → Result (GraphIdMaps × TimingGraph)
unfolding optimize_node_layout optimize_edge_layout
optimize_layout g = do
  node_id_map ← optimize_node_layout g
  g1 ← remap_nodes g node_id_map
  g2 ← levelize g1
  edge_id_map ← optimize_edge_layout g2
  g3 ← remap_edges g2 edge_id_map
  g4 ← levelize g3
  ok ((node_id_map, edge_id_map), g4)

pub compress : TimingGraph → Result (GraphIdMaps × TimingGraph)
compress g = do
  node_id_map ← compress_ids g.node_ids
  edge_id_map ← compress_ids g.edge_ids
  g1 ← remap_nodes g node_id_map
  g2 ← remap_edges g1 edge_id_map
  g3 ← levelize g2
  valid ← validate g3
  ok ((node_id_map, edge_id_map), g3)
