-- ===== src/Graph/Validate.antt =====
-- libtatum/tatum/TimingGraph.cpp: `validate`, which checks that the arrays of a graph agree with one
-- another and that its nodes, edges and levels form a timing graph.
pub mod Values
pub mod Examples
use tatum.Prelude.{
  ℕ, zero, suc, ◌+◌, Bool, true, false, not, ◌&&◌, ◌||◌, none, some, List, [], ◌∷◌, ◌++◌, length,
  ltb, ◌==◌, if◌then◌else◌,
}
use tatum.Result.{Result, ok, err, thrown, Message, check, throw_if, ◌>>=◌, ◌>>◌}
use tatum.Container.{StrongId, at, same_id}
use tatum.Graph.{
  TimingGraph, NodeId, EdgeId, LevelId, source, sink, same_node_type, valid_node_id, valid_edge_id,
  node_type, node_in_edges, node_out_edges, edge_type, edge_src_node, edge_sink_node, node_level,
  level_nodes, levels, primary_inputs, logical_outputs,
}
use tatum.Graph.Search.{id_before}
use tatum.Graph.Connect.{check_fan, check_edge}
use tatum.Graph.Loops.{identify_combinational_loops}

-- for(x : xs) body, where the body reads the graph or stops the program.
pub each {ℓ} : {A : Type ℓ} → List A → (A → Result (Unit {0})) → Result (Unit {0})
each [] body = ok tt
each (x ∷ xs) body = body x >> each xs body

pub validate_sizes : TimingGraph → Result Bool
validate_sizes g = do
  let nodes = length g.node_ids
  let edges = length g.edge_ids
  throw_if
      (not (nodes == length g.node_types)
        || not (nodes == length g.node_in_edges)
        || not (nodes == length g.node_out_edges)
        || not (nodes == length g.node_levels))
      (thrown Message.node_sizes none none)
  throw_if
      (not (edges == length g.edge_types)
        || not (edges == length g.edge_sink_nodes)
        || not (edges == length g.edge_src_nodes)
        || not (edges == length g.edges_disabled))
      (thrown Message.edge_sizes none none)
  throw_if (not (length g.level_ids == length g.level_nodes)) (thrown Message.level_sizes none none)
  ok true

-- A reference of a node to an edge: the edge is in range and ends there.
pub check_ref : TimingGraph → List NodeId → Message → Message → NodeId → EdgeId → Result (Unit {0})
check_ref g ends bad mismatched node_id edge_id = do
  throw_if (not (valid_edge_id g edge_id)) (thrown bad node_id edge_id)
  end ← at ends edge_id
  throw_if (not (same_id end node_id)) (thrown mismatched node_id edge_id)

pub check_node_values : TimingGraph → NodeId → Result (Unit {0})
unfolding each check_ref
check_node_values g node_id = do
  throw_if (not (valid_node_id g node_id)) (thrown Message.bad_node_id node_id none)
  ins ← node_in_edges g node_id
  each ins (check_ref g g.edge_sink_nodes Message.bad_in_edge Message.mismatched_sink node_id)
  outs ← node_out_edges g node_id
  each outs (check_ref g g.edge_src_nodes Message.bad_out_edge Message.mismatched_src node_id)

pub check_edge_values : TimingGraph → EdgeId → Result (Unit {0})
check_edge_values g edge_id = do
  throw_if (not (valid_edge_id g edge_id)) (thrown Message.bad_edge_id none edge_id)
  src_node ← edge_src_node g edge_id
  throw_if (not (valid_node_id g src_node)) (thrown Message.bad_edge_src src_node edge_id)
  sink_node ← edge_sink_node g edge_id
  throw_if (not (valid_node_id g sink_node)) (thrown Message.bad_edge_sink sink_node edge_id)

pub validate_values : TimingGraph → Result Bool
unfolding each check_node_values check_edge_values
validate_values g = do
  each g.node_ids (check_node_values g)
  each g.edge_ids (check_edge_values g)
  ok true

-- The fan-in, the fan-out and the outgoing edges of a node.
pub check_node_structure : TimingGraph → NodeId → Result (Unit {0})
unfolding each
check_node_structure g src_node = do
  src_type ← node_type g src_node
  out_edges ← node_out_edges g src_node
  in_edges ← node_in_edges g src_node
  check_fan src_type src_node g.allow_dangling_combinational_nodes (length in_edges)
      (length out_edges)
  each out_edges (λ out_edge. do
    sink_node ← edge_sink_node g out_edge
    sink_type ← node_type g sink_node
    out_edge_type ← edge_type g out_edge
    check_edge src_type sink_type out_edge_type src_node sink_node out_edge)

-- std::map<std::pair<NodeId,NodeId>, std::vector<EdgeId>>, in the order of its keys.
abbrev pub EdgeNodes : Type 0
EdgeNodes = List ((NodeId × NodeId) × List EdgeId)

-- edge_nodes[{src_node,sink_node}].push_back(edge)
pub record_edge : NodeId → NodeId → EdgeId → EdgeNodes → EdgeNodes
record_edge src_node sink_node edge [] = ((src_node, sink_node), edge ∷ []) ∷ []
record_edge src_node sink_node edge (((s, n), es) ∷ rest) =
    let later = record_edge src_node sink_node edge rest in
    if same_id src_node s && same_id sink_node n
    then ((s, n), es ++ edge ∷ []) ∷ rest
    else if id_before src_node s || (same_id src_node s && id_before sink_node n)
    then ((src_node, sink_node), edge ∷ []) ∷ (((s, n), es) ∷ rest)
    else ((s, n), es) ∷ later

pub record_edges : TimingGraph → List EdgeId → EdgeNodes → Result EdgeNodes
unfolding record_edge
record_edges g [] edge_nodes = ok edge_nodes
record_edges g (edge ∷ edges) edge_nodes = do
  src_node ← edge_src_node g edge
  sink_node ← edge_sink_node g edge
  record_edges g edges (record_edge src_node sink_node edge edge_nodes)

pub check_duplicates : TimingGraph → Result (Unit {0})
unfolding each record_edges
check_duplicates g = do
  edge_nodes ← record_edges g g.edge_ids []
  each edge_nodes (λ kv. do
    check (ltb 0 (length kv.1))
    throw_if (ltb 1 (length kv.1)) (thrown Message.duplicate_edges kv.0.0 none))

pub check_primary_input : TimingGraph → NodeId → Result (Unit {0})
check_primary_input g node_id = do
  ins ← node_in_edges g node_id
  throw_if (not (length ins == 0)) (thrown Message.input_has_fanin node_id none)
  type ← node_type g node_id
  throw_if (not (same_node_type type source)) (thrown Message.input_not_source node_id none)

pub check_logical_output : TimingGraph → NodeId → Result (Unit {0})
check_logical_output g node_id = do
  outs ← node_out_edges g node_id
  throw_if (not (length outs == 0)) (thrown Message.output_has_fanout node_id none)
  type ← node_type g node_id
  throw_if (not (same_node_type type sink)) (thrown Message.output_not_sink node_id none)

pub check_level : TimingGraph → LevelId → Result (Unit {0})
unfolding each
check_level g level = do
  nodes ← level_nodes g level
  each nodes (λ node_id. do
    l ← node_level g node_id
    throw_if (not (same_id l level)) (thrown Message.level_mismatch node_id none))

pub validate_structure : TimingGraph → Result Bool
unfolding each check_node_structure check_duplicates check_primary_input check_logical_output
    check_level
validate_structure g = do
  throw_if (not g.is_levelized) (thrown Message.not_levelized none none)
  each g.node_ids (check_node_structure g)
  check_duplicates g
  inputs ← primary_inputs g
  each inputs (check_primary_input g)
  outputs ← logical_outputs g
  each outputs (check_logical_output g)
  ls ← levels g
  each ls (check_level g)
  sccs ← identify_combinational_loops g
  throw_if (ltb 0 (length sccs)) (thrown Message.combinational_loops none none)
  ok true

pub validate : TimingGraph → Result Bool
unfolding validate_sizes validate_values validate_structure
validate g = do
  sizes ← validate_sizes g
  values ← validate_values g
  structure ← validate_structure g
  ok (true && sizes && values && structure)
