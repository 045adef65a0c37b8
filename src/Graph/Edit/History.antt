-- ===== src/Graph/Edit/History.antt =====
-- Histories of edits of a timing graph, from the empty graph on.
use tatum.Prelude.{ℕ, ◌≡◌, Bool, true, some, subst}
use tatum.Result.{Result, ok, ◌>>=◌}
use tatum.Graph.{TimingGraph, NodeType, EdgeType, empty_graph}
use tatum.Graph.View.{alive}
use tatum.Graph.Edit.{add_node, add_edge, remove_edge, remove_node, disable_edge}
use tatum.Graph.Edit.Consistent.{IsConsistent, empty_graph-IsConsistent}
use tatum.Graph.Edit.Add.{add_node-IsConsistent, add_edge-IsConsistent}
use tatum.Graph.Edit.Remove.{remove_edge-Removes}
use tatum.Graph.Edit.RemoveNode.{remove_node-RemovesNode}
use tatum.Graph.Edit.Disable.{disable_edge-IsConsistent}

pub data Edit : Type 0 where
  adds_node : NodeType → Edit
  adds_edge : EdgeType → ℕ → ℕ → Edit
  removes_edge removes_node : ℕ → Edit
  disables_edge : ℕ → Bool → Edit

-- The call that an edit stands for, as an action on the graph.
unfoldable pub perform : TimingGraph → Edit → Result TimingGraph
perform g (adds_node type) = add_node g type >>= λ r. ok r.0
perform g (adds_edge type n m) = add_edge g type (some n) (some m) >>= λ r. ok r.0
perform g (removes_edge k) = remove_edge g (some k)
perform g (removes_node n) = remove_node g (some n)
perform g (disables_edge k flag) = disable_edge g (some k) flag

-- The nodes and edges that a call names are in the graph.
abbrev pub IsLegal : TimingGraph → Edit → Type 0
IsLegal g (adds_node type) = Unit
IsLegal g (adds_edge type n m) = (alive g.node_ids n ≡ true) × (alive g.node_ids m ≡ true)
IsLegal g (removes_edge k) = alive g.edge_ids k ≡ true
IsLegal g (removes_node n) = alive g.node_ids n ≡ true
IsLegal g (disables_edge k flag) = alive g.edge_ids k ≡ true

-- The graphs that legal edits make of a graph.
pub data Edited (g : TimingGraph) : TimingGraph → Type 0 where
  start : Edited g g
  after :
      {g₁ g₂ : TimingGraph} (e : Edit)
      → Edited g g₁
      → IsLegal g₁ e
      → perform g₁ e ≡ ok g₂
      → Edited g g₂

-- An edit of a consistent graph that names only nodes and edges of the graph succeeds, and leaves a
-- consistent graph.
perform_total :
    (g : TimingGraph) (e : Edit)
    → IsConsistent g
    → IsLegal g e
    → (g' : TimingGraph) × (perform g e ≡ ok g') × IsConsistent g'
unfolding perform
perform_total g (adds_node type) h l =
    let (g', run, c, _, _, _) = add_node-IsConsistent g type h in (g', rw run, c)
perform_total g (adds_edge type n m) h l =
    let (g', run, c, _, _, _) = add_edge-IsConsistent g type n m h l.0 l.1 in (g', rw run, c)
perform_total g (removes_edge k) h l =
    let (g', r) = remove_edge-Removes g k h l in (g', r.success, r.consistent)
perform_total g (removes_node n) h l =
    let (g', r) = remove_node-RemovesNode g n h l in (g', r.success, r.consistent)
perform_total g (disables_edge k flag) h l =
    let (g', run, c, _, _, _) = disable_edge-IsConsistent g k flag h l in (g', run, c)

-- Every graph that is made of the empty graph by edits, each of which names only nodes and edges that
-- are in the graph at that time, is consistent.
pub Edited-IsConsistent : {g : TimingGraph} → Edited empty_graph g → IsConsistent g
Edited-IsConsistent start = empty_graph-IsConsistent
Edited-IsConsistent (after {g₁} {g₂} e r l p) =
    let (g', q, c) = perform_total g₁ e (Edited-IsConsistent r) l in
    let same : g' ≡ g₂ = cc in subst IsConsistent same c
