-- ===== src/Graph/Edit/Disable.antt =====
-- The function `disable_edge` of TimingGraph.cpp, against the view and the consistency of a graph.
use tatum.Prelude.{
  ℕ, ◌≡◌, refl, Bool, true, false, some, arith, get_or, set, ◌==◌, if◌then◌else◌, get_elem?-set,
  length-set, ◌&&◌,
}
use tatum.Result.{ok}
use tatum.Container.Laws.{at_in, store_in, contain_in}
use tatum.Graph.{TimingGraph}
use tatum.Graph.View.{alive, edge_view, node_view, edge_attributes}
use tatum.Graph.Edit.{disable_edge, same_bool}
use tatum.Graph.Edit.Consistent.{IsConsistent, lt-length_of_alive}

disable_edge_value :
    (g : TimingGraph) (k : ℕ) (flag : Bool)
    → IsConsistent g
    → alive g.edge_ids k ≡ true
    → disable_edge g (some k) flag
      ≡ ok (record g {
        is_levelized =
            if same_bool (get_or g.edges_disabled k false) flag then g.is_levelized else false;
        edges_disabled = set g.edges_disabled k flag;
      })
unfolding disable_edge
disable_edge_value g k flag h a =
    let lt = lt-length_of_alive g.edge_ids k a in
    rw
      (
        contain_in g.edge_ids k lt,
        at_in g.edges_disabled k false (omega (arith, h.disabled_size)),
        store_in g.edges_disabled k flag (omega (arith, h.disabled_size)),
      )
      refl

-- In a consistent graph that has the edge, `disable_edge` succeeds. The new graph is consistent; the
-- edge has the given flag, and every other edge and every node is as before; and the graph is still
-- levelized exactly if it was and the edge had the flag already.
pub disable_edge-IsConsistent :
    (g : TimingGraph) (k : ℕ) (flag : Bool)
    → IsConsistent g
    → alive g.edge_ids k ≡ true
    → (g' : TimingGraph) × (disable_edge g (some k) flag ≡ ok g')
      × IsConsistent g'
      × ((e : ℕ)
          → edge_view g' e ≡ (
              if e == k
              then some (record (edge_attributes g k) { disabled = some flag })
              else edge_view g e))
      × ((i : ℕ) → node_view g' i ≡ node_view g i)
      × (g'.is_levelized ≡ same_bool (get_or g.edges_disabled k false) flag && g.is_levelized)
unfolding edge_view node_view
disable_edge-IsConsistent g k flag h a = (
  record g {
    is_levelized =
        if same_bool (get_or g.edges_disabled k false) flag then g.is_levelized else false;
    edges_disabled = set g.edges_disabled k flag;
  },
  disable_edge_value g k flag h a,
  record {
    types_size = h.types_size;
    edge_types_size = h.edge_types_size;
    disabled_size = omega (arith, h.disabled_size, length-set g.edges_disabled k flag);
    own_nodes = h.own_nodes;
    own_edges = h.own_edges;
    ins = h.ins;
    outs = h.outs;
  },
  λ e. ground (
    arith,
    h.disabled_size,
    lt-length_of_alive g.edge_ids k a,
    get_elem?-set g.edges_disabled k e flag,
  ),
  λ i. refl,
  ground arith,
)
