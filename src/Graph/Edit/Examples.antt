-- ===== src/Graph/Edit/Examples.antt =====
-- Runs of the edit functions on a graph of two nodes and an edge.
use tatum.Prelude.{ℕ, ◌≡◌, refl, inl, true, false, none, some, [], ◌∷◌, arith, ◌==◌, if◌then◌else◌}
use tatum.Result.{ok}
use tatum.Graph.{TimingGraph, empty_graph, source, sink, interconnect, opin}
use tatum.Graph.View.{edge_view, node_view, edge_attributes}
use tatum.Graph.Edit.{
  add_node, add_edge, disable_edge, remove_node, invalidate, remove_all_refs, remove_edge,
}
use tatum.Graph.Edit.Consistent.{IsConsistent}
use tatum.Graph.Edit.Add.{add_node-IsConsistent, add_edge-IsConsistent, add_edge_removed}
use tatum.Graph.Edit.Remove.{Removes, remove_edge-Removes}
use tatum.Graph.Edit.RemoveNode.{RemovesNode, remove_node-RemovesNode}
use tatum.Graph.Edit.Disable.{disable_edge-IsConsistent}
use tatum.Graph.Edit.History.{
  Edit, Edit.adds_node, Edit.adds_edge, Edited, start, after, perform, Edited-IsConsistent,
}

abbrev pair : TimingGraph
pair = record empty_graph {
  node_ids = some 0 ∷ some 1 ∷ [];
  node_types = source ∷ sink ∷ [];
  node_in_edges = [] ∷ [] ∷ [];
  node_out_edges = [] ∷ [] ∷ [];
}

abbrev pub joined : TimingGraph
joined = record pair {
  node_in_edges = [] ∷ (some 0 ∷ []) ∷ [];
  node_out_edges = (some 0 ∷ []) ∷ [] ∷ [];
  edge_ids = some 0 ∷ [];
  edge_types = interconnect ∷ [];
  edge_src_nodes = some 0 ∷ [];
  edge_sink_nodes = some 1 ∷ [];
  edges_disabled = false ∷ [];
}

pair-Edited : Edited empty_graph pair
unfolding perform add_node
pair-Edited = after (adds_node sink) (after (adds_node source) start tt refl) tt refl

joined-Edited : Edited empty_graph joined
unfolding perform add_edge
joined-Edited = after (adds_edge interconnect 0 1) pair-Edited (refl, refl) refl

pub joined-IsConsistent : IsConsistent joined
joined-IsConsistent = Edited-IsConsistent joined-Edited

abbrev orphan : TimingGraph
orphan = record joined {
  node_ids = none ∷ some 1 ∷ [];
  node_in_edges = [] ∷ (none ∷ []) ∷ [];
  node_out_edges = (none ∷ []) ∷ [] ∷ [];
  edge_ids = none ∷ [];
}

orphan-Edited : Edited empty_graph orphan
unfolding perform remove_node invalidate remove_all_refs remove_edge
orphan-Edited = after (Edit.removes_node 0) joined-Edited refl refl

Edited-IsConsistent_example : IsConsistent orphan
Edited-IsConsistent_example = Edited-IsConsistent orphan-Edited

remove_node-RemovesNode_example : (g' : TimingGraph) × RemovesNode joined 1 g'
remove_node-RemovesNode_example = remove_node-RemovesNode joined 1 joined-IsConsistent refl

remove_edge-Removes_example : (g' : TimingGraph) × Removes joined 0 g'
remove_edge-Removes_example = remove_edge-Removes joined 0 joined-IsConsistent refl

add_edge-IsConsistent_example :
    (g' : TimingGraph) × (add_edge joined interconnect (some 0) (some 1) ≡ ok (g', some 1))
    × IsConsistent g'
    × ((e : ℕ)
        → edge_view g' e ≡ (
            if e == 1
            then some (record {
              type = some interconnect;
              src_node = some 0;
              sink_node = some 1;
              disabled = some false;
            })
            else edge_view joined e))
    × ((i : ℕ) → node_view g' i ≡ node_view joined i)
    × (g'.is_levelized ≡ false)
add_edge-IsConsistent_example =
    add_edge-IsConsistent joined interconnect 0 1 joined-IsConsistent refl refl

add_node-IsConsistent_example :
    (g' : TimingGraph) × (add_node joined opin ≡ ok (g', some 2))
    × IsConsistent g'
    × ((n : ℕ) → node_view g' n ≡ (if n == 2 then some opin else node_view joined n))
    × ((e : ℕ) → edge_view g' e ≡ edge_view joined e)
    × (g'.is_levelized ≡ false)
add_node-IsConsistent_example = add_node-IsConsistent joined opin joined-IsConsistent

disable_edge-IsConsistent_example :
    (g' : TimingGraph) × (disable_edge joined (some 0) true ≡ ok g')
    × IsConsistent g'
    × ((e : ℕ)
        → edge_view g' e ≡ (
            if e == 0
            then some (record (edge_attributes joined 0) { disabled = some true })
            else edge_view joined e))
    × ((i : ℕ) → node_view g' i ≡ node_view joined i)
    × (g'.is_levelized ≡ false)
disable_edge-IsConsistent_example = disable_edge-IsConsistent joined 0 true joined-IsConsistent refl

add_edge_removed_example :
    (g' : TimingGraph) × (add_edge orphan interconnect (some 0) (some 1) ≡ ok (g', some 1))
    × (¬ IsConsistent g')
add_edge_removed_example =
    add_edge_removed orphan interconnect 0 1 (Edited-IsConsistent orphan-Edited) (omega arith)
      (omega arith) (inl refl)
