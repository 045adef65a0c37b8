-- ===== src/Graph.antt =====
-- libtatum/tatum/TimingGraph.hpp and TimingGraphFwd.hpp: the timing graph and its accessors.
-- A field of the class is the field of the record with the same name, less its last `_`.
pub mod View
pub mod Edit
pub mod Remap
pub mod Levelize
pub mod Layout
pub mod Loops
pub mod Search
pub mod Connect
pub mod Validate
use tatum.Prelude.{ℕ, suc, Bool, true, false, none, List, [], ◌∷◌, if◌then◌else◌}
use tatum.Result.{Result, ok, check, ◌>>=◌, ◌>>◌}
use tatum.Container.{StrongId, contain, at, same_id}

abbrev pub NodeId : Type 0
NodeId = StrongId

abbrev pub EdgeId : Type 0
EdgeId = StrongId

abbrev pub LevelId : Type 0
LevelId = StrongId

pub data NodeType : Type 0 where
  source sink ipin opin cpin : NodeType

pub data EdgeType : Type 0 where
  primitive_combinational primitive_clock_launch primitive_clock_capture interconnect : EdgeType

-- == on the two enumerations
abbrev pub same_node_type : NodeType → NodeType → Bool
same_node_type source source = true
same_node_type sink sink = true
same_node_type ipin ipin = true
same_node_type opin opin = true
same_node_type cpin cpin = true
same_node_type _ _ = false

abbrev pub same_edge_type : EdgeType → EdgeType → Bool
same_edge_type primitive_combinational primitive_combinational = true
same_edge_type primitive_clock_launch primitive_clock_launch = true
same_edge_type primitive_clock_capture primitive_clock_capture = true
same_edge_type interconnect interconnect = true
same_edge_type _ _ = false

pub record TimingGraph : Type 0 where
  pub node_ids : List NodeId
  pub node_types : List NodeType
  pub node_in_edges : List (List EdgeId)
  pub node_out_edges : List (List EdgeId)
  pub node_levels : List LevelId
  pub edge_ids : List EdgeId
  pub edge_types : List EdgeType
  pub edge_sink_nodes : List NodeId
  pub edge_src_nodes : List NodeId
  pub edges_disabled : List Bool
  pub level_ids : List LevelId
  pub level_nodes : List (List NodeId)
  pub primary_inputs : List NodeId
  pub logical_outputs : List NodeId
  pub is_levelized : Bool
  pub allow_dangling_combinational_nodes : Bool

abbrev pub empty_graph : TimingGraph
empty_graph = record {
  node_ids = [];
  node_types = [];
  node_in_edges = [];
  node_out_edges = [];
  node_levels = [];
  edge_ids = [];
  edge_types = [];
  edge_sink_nodes = [];
  edge_src_nodes = [];
  edges_disabled = [];
  level_ids = [];
  level_nodes = [];
  primary_inputs = [];
  logical_outputs = [];
  is_levelized = false;
  allow_dangling_combinational_nodes = false;
}

module _ (g : TimingGraph) where
  abbrev pub valid_node_id : NodeId → Bool
  valid_node_id id = contain g.node_ids id

  abbrev pub valid_edge_id : EdgeId → Bool
  valid_edge_id id = contain g.edge_ids id

  abbrev pub valid_level_id : LevelId → Bool
  valid_level_id id = contain g.level_ids id

  abbrev pub node_type : NodeId → Result NodeType
  node_type id = at g.node_types id

  abbrev pub node_in_edges : NodeId → Result (List EdgeId)
  node_in_edges id = at g.node_in_edges id

  abbrev pub node_out_edges : NodeId → Result (List EdgeId)
  node_out_edges id = at g.node_out_edges id

  abbrev pub edge_sink_node : EdgeId → Result NodeId
  edge_sink_node id = at g.edge_sink_nodes id

  abbrev pub edge_src_node : EdgeId → Result NodeId
  edge_src_node id = at g.edge_src_nodes id

  abbrev pub edge_disabled : EdgeId → Result Bool
  edge_disabled id = at g.edges_disabled id

  abbrev pub edge_type : EdgeId → Result EdgeType
  edge_type id = do check (valid_edge_id id); at g.edge_types id

  abbrev pub node_level : NodeId → Result LevelId
  node_level id = if g.is_levelized then at g.node_levels id else ok none

  abbrev pub level_nodes : LevelId → Result (List NodeId)
  level_nodes id = do check g.is_levelized; at g.level_nodes id

  abbrev pub levels : Result (List LevelId)
  levels = do check g.is_levelized; ok g.level_ids

  abbrev pub primary_inputs : Result (List NodeId)
  primary_inputs = do check g.is_levelized; ok g.primary_inputs

  abbrev pub logical_outputs : Result (List NodeId)
  logical_outputs = do check g.is_levelized; ok g.logical_outputs

  -- for(edge : edges) if(!edge_disabled(edge)) ++active
  unfoldable pub count_active_edges : List EdgeId → Result ℕ
  count_active_edges [] = ok 0
  count_active_edges (e ∷ es) = do
    d ← edge_disabled e
    rest ← count_active_edges es
    ok (if d then rest else suc rest)

  unfoldable pub node_num_active_in_edges : NodeId → Result ℕ
  unfolding count_active_edges
  node_num_active_in_edges id = do es ← node_in_edges id; count_active_edges es

  -- The first edge of a list that has a type; INVALID if there is none.
  unfoldable pub first_of_type : EdgeType → List EdgeId → Result EdgeId
  first_of_type t [] = ok none
  first_of_type t (e ∷ es) = do
    et ← edge_type e
    elim (same_edge_type et t) [ true ↦ ok e | false ↦ first_of_type t es ]

  unfoldable pub node_clock_capture_edge : NodeId → Result EdgeId
  unfolding first_of_type
  node_clock_capture_edge id = do
    t ← node_type id
    elim (same_node_type t sink) [
      | true ↦ node_in_edges id >>= first_of_type primitive_clock_capture
      | false ↦ ok none
    ]

  pub node_clock_launch_edge : NodeId → Result EdgeId
  unfolding first_of_type
  node_clock_launch_edge id = do
    t ← node_type id
    elim (same_node_type t source) [
      | true ↦ node_in_edges id >>= first_of_type primitive_clock_launch
      | false ↦ ok none
    ]

  -- The first edge of a list that ends in a node; INVALID if there is none.
  pub first_to : NodeId → List EdgeId → Result EdgeId
  first_to n [] = ok none
  first_to n (e ∷ es) = do
    s ← edge_sink_node e
    elim (same_id s n) [ true ↦ ok e | false ↦ first_to n es ]

  pub find_edge : NodeId → NodeId → Result EdgeId
  unfolding first_to
  find_edge src_node sink_node = do
    check (valid_node_id src_node)
    check (valid_node_id sink_node)
    es ← node_out_edges src_node
    first_to sink_node es
