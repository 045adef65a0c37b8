-- ===== src/Graph/Remap.antt =====
-- libtatum/tatum/TimingGraph.cpp: new ids for the nodes and edges of a graph.
pub mod Ids
pub mod Values
pub mod Examples
use tatum.Prelude.{
  ℕ, zero, suc, Bool, true, false, none, some, List, [], ◌∷◌, length, replicate, ◌==◌,
}
use tatum.Result.{Result, ok, check, ◌>>=◌, ◌>>◌}
use tatum.Container.{StrongId, at, insert}
use tatum.Graph.{TimingGraph, NodeId, EdgeId, NodeType, EdgeType, source, primitive_combinational}

-- The loop of `compress_ids`: the ids left, the next new id, and the map so far.
pub compress_loop : List StrongId → ℕ → List StrongId → Result (List StrongId)
compress_loop [] i id_map = ok id_map
compress_loop (none ∷ ids) i id_map = compress_loop ids i id_map
compress_loop (some k ∷ ids) i id_map =
    insert none id_map (some k) (some i) >>= λ id_map'. compress_loop ids (suc i) id_map'

pub compress_ids : List StrongId → Result (List StrongId)
unfolding compress_loop
compress_ids ids = compress_loop ids 0 (replicate (length ids) none)

module _ {ℓ} {T : Type ℓ} (d : T) where
  -- The loop of `clean_and_reorder_values` over the values and their new ids.
  pub clean_loop : List T → List StrongId → List T → Result (List T)
  clean_loop [] id_map result = ok result
  clean_loop (v ∷ values) [] result = ok result
  clean_loop (v ∷ values) (none ∷ id_map) result = clean_loop values id_map result
  clean_loop (v ∷ values) (some k ∷ id_map) result =
      insert d result (some k) v >>= λ result'. clean_loop values id_map result'

  pub clean_and_reorder_values : List T → List StrongId → Result (List T)
  unfolding clean_loop
  clean_and_reorder_values values id_map = do
    check (length values == length id_map)
    clean_loop values id_map []

pub clean_ids_loop : List StrongId → List StrongId → Result (List StrongId)
clean_ids_loop [] result = ok result
clean_ids_loop (none ∷ id_map) result = clean_ids_loop id_map result
clean_ids_loop (some k ∷ id_map) result =
    insert none result (some k) (some k) >>= λ result'. clean_ids_loop id_map result'

pub clean_and_reorder_ids : List StrongId → Result (List StrongId)
unfolding clean_ids_loop
clean_and_reorder_ids id_map = clean_ids_loop id_map []

-- Keeps the references that are valid and stay valid, under their new ids.
pub update_valid_refs : List StrongId → List StrongId → Result (List StrongId)
update_valid_refs [] id_map = ok []
update_valid_refs (none ∷ values) id_map = update_valid_refs values id_map
update_valid_refs (some k ∷ values) id_map = do
  new_val ← at id_map (some k)
  updated ← update_valid_refs values id_map
  elim new_val [ none ↦ ok updated | some j ↦ ok (some j ∷ updated) ]

pub update_all_refs : List StrongId → List StrongId → Result (List StrongId)
update_all_refs [] id_map = ok []
update_all_refs (v ∷ values) id_map = do
  new_val ← at id_map v
  updated ← update_all_refs values id_map
  ok (new_val ∷ updated)

-- for(auto& edges_ref : ...) edges_ref = update_valid_refs(edges_ref, edge_id_map);
pub update_each : List (List EdgeId) → List EdgeId → Result (List (List EdgeId))
unfolding update_valid_refs
update_each [] edge_id_map = ok []
update_each (es ∷ rest) edge_id_map = do
  es' ← update_valid_refs es edge_id_map
  rest' ← update_each rest edge_id_map
  ok (es' ∷ rest')

pub remap_nodes : TimingGraph → List NodeId → Result TimingGraph
unfolding clean_and_reorder_ids clean_and_reorder_values update_all_refs
remap_nodes g node_id_map = do
  ids ← clean_and_reorder_ids node_id_map
  types ← clean_and_reorder_values source g.node_types node_id_map
  ins ← clean_and_reorder_values [] g.node_in_edges node_id_map
  outs ← clean_and_reorder_values [] g.node_out_edges node_id_map
  srcs ← update_all_refs g.edge_src_nodes node_id_map
  sinks ← update_all_refs g.edge_sink_nodes node_id_map
  ok (record g {
    is_levelized = false;
    node_ids = ids;
    node_types = types;
    node_in_edges = ins;
    node_out_edges = outs;
    edge_src_nodes = srcs;
    edge_sink_nodes = sinks;
  })

pub remap_edges : TimingGraph → List EdgeId → Result TimingGraph
unfolding clean_and_reorder_ids clean_and_reorder_values update_each
remap_edges g edge_id_map = do
  ids ← clean_and_reorder_ids edge_id_map
  types ← clean_and_reorder_values primitive_combinational g.edge_types edge_id_map
  sinks ← clean_and_reorder_values none g.edge_sink_nodes edge_id_map
  srcs ← clean_and_reorder_values none g.edge_src_nodes edge_id_map
  flags ← clean_and_reorder_values false g.edges_disabled edge_id_map
  ins ← update_each g.node_in_edges edge_id_map
  outs ← update_each g.node_out_edges edge_id_map
  ok (record g {
    is_levelized = false;
    edge_ids = ids;
    edge_types = types;
    edge_sink_nodes = sinks;
    edge_src_nodes = srcs;
    edges_disabled = flags;
    node_in_edges = ins;
    node_out_edges = outs;
  })
