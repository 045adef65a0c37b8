-- ===== src/Graph/View.antt =====
-- The abstract view of a timing graph: which nodes and edges it has, by id, with what the accessors
-- say of them. The references of the nodes, the removed entries and the levels are forgotten.
use tatum.Prelude.{ℕ, Bool, Option, none, some, List, get_or, get_elem?, if◌then◌else◌}
use tatum.Container.{StrongId, same_id}
use tatum.Graph.{TimingGraph, NodeId, NodeType, EdgeType}

-- The entry of an id is the id itself until it is removed.
abbrev pub alive : List StrongId → ℕ → Bool
alive ids i = same_id (get_or ids i none) (some i)

pub record Edge : Type 0 where
  pub type : Option EdgeType
  pub src_node : NodeId
  pub sink_node : NodeId
  pub disabled : Option Bool

abbrev pub edge_attributes : TimingGraph → ℕ → Edge
edge_attributes g e = record {
  type = get_elem? g.edge_types e;
  src_node = get_or g.edge_src_nodes e none;
  sink_node = get_or g.edge_sink_nodes e none;
  disabled = get_elem? g.edges_disabled e;
}

unfoldable pub edge_view : TimingGraph → ℕ → Option Edge
edge_view g e = if alive g.edge_ids e then some (edge_attributes g e) else none

unfoldable pub node_view : TimingGraph → ℕ → Option NodeType
node_view g n = if alive g.node_ids n then get_elem? g.node_types n else none
