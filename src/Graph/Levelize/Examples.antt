-- ===== src/Graph/Levelize/Examples.antt =====
-- Checks of the levels of a graph of two nodes and an edge, and of a loop of two edges.
use tatum.Prelude.{◌≡◌, ◌≢◌, refl, false, some, [], ◌∷◌}
use tatum.Result.{ok, err, out_of_fuel, ◌>>=◌}
use tatum.Graph.{
  node_num_active_in_edges, TimingGraph, empty_graph, ipin, opin, interconnect,
  primitive_combinational,
}
use tatum.Graph.Edit.Examples.{joined, joined-IsConsistent}
use tatum.Graph.Validate.Examples.{joined-IsCompact}
use tatum.Graph.Levelize.{force_levelize}
use tatum.Graph.Levelize.Fuel.{force_levelize-terminates}
use tatum.Graph.Levelize.Total.{IsLevelized, force_levelize-IsOrdered}

-- An opin and an ipin that drive each other.
abbrev looped : TimingGraph
looped = record empty_graph {
  node_ids = some 0 ∷ some 1 ∷ [];
  node_types = opin ∷ ipin ∷ [];
  node_in_edges = (some 1 ∷ []) ∷ (some 0 ∷ []) ∷ [];
  node_out_edges = (some 0 ∷ []) ∷ (some 1 ∷ []) ∷ [];
  edge_ids = some 0 ∷ some 1 ∷ [];
  edge_types = interconnect ∷ primitive_combinational ∷ [];
  edge_sink_nodes = some 1 ∷ some 0 ∷ [];
  edge_src_nodes = some 0 ∷ some 1 ∷ [];
  edges_disabled = false ∷ false ∷ [];
}

joined_levels :
    (force_levelize joined >>= λ g. ok g.level_nodes) ≡ ok ((some 0 ∷ []) ∷ (some 1 ∷ []) ∷ [])
unfolding force_levelize node_num_active_in_edges
joined_levels = refl

-- No node of the loop gets a level.
looped_levels : (force_levelize looped >>= λ g. ok g.level_nodes) ≡ ok ([] ∷ [] ∷ [])
unfolding force_levelize node_num_active_in_edges
looped_levels = refl

force_levelize-terminates_example : force_levelize looped ≢ err out_of_fuel
force_levelize-terminates_example = force_levelize-terminates looped

force_levelize-IsOrdered_example :
    (g : TimingGraph) × (force_levelize joined ≡ ok g) × IsLevelized joined g
force_levelize-IsOrdered_example =
    force_levelize-IsOrdered joined joined-IsConsistent joined-IsCompact
