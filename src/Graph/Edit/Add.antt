-- ===== src/Graph/Edit/Add.antt =====
-- The functions `add_node` and `add_edge` of TimingGraph.cpp, against the view and the consistency.
use tatum.Prelude.{
  ℕ, ◌<◌, ◌≡◌, refl, ◌⊎◌, inl, inr, true, false, none, some, [], arith, length, get_or, set, ◌==◌,
  if◌then◌else◌, get_or-push, get_elem?-push, get_elem?_in, length-push,
}
use tatum.Result.{ok}
use tatum.Container.{push_back}
use tatum.Graph.{
  TimingGraph, NodeType, EdgeType, same_edge_type, primitive_combinational, primitive_clock_launch,
  primitive_clock_capture, interconnect,
}
use tatum.Graph.View.{alive, edge_view, node_view}
use tatum.Graph.Edit.{add_node, add_edge, new_edge}
use tatum.Graph.Edit.Refs.{AreRefs-push_node, AreRefs-push_edge}
use tatum.Graph.Edit.Consistent.{IsConsistent, IdsAreOwn-push, lt-length_of_alive}

abbrev with_node : TimingGraph → NodeType → TimingGraph
with_node g type = record g {
  is_levelized = false;
  node_ids = push_back g.node_ids (some (length g.node_ids));
  node_types = push_back g.node_types type;
  node_out_edges = push_back g.node_out_edges [];
  node_in_edges = push_back g.node_in_edges [];
}

with_node-IsConsistent :
    (g : TimingGraph) (type : NodeType) → IsConsistent g → IsConsistent (with_node g type)
with_node-IsConsistent g type h = record {
  types_size = omega (
    arith,
    length-push g.node_types type,
    length-push g.node_ids (some (length g.node_ids)),
    h.types_size,
  );
  edge_types_size = h.edge_types_size;
  disabled_size = h.disabled_size;
  own_nodes = IdsAreOwn-push g.node_ids h.own_nodes;
  own_edges = h.own_edges;
  ins = AreRefs-push_node h.ins;
  outs = AreRefs-push_node h.outs;
}

add_node_lem :
    (g : TimingGraph) (type : NodeType)
    → IsConsistent g
    → add_node g type ≡ ok (with_node g type, some (length g.node_ids))
unfolding add_node
add_node_lem g type h = ground (
  arith,
  h.types_size,
  h.ins.refs_size,
  h.outs.refs_size,
  length-push g.node_types type,
  length-push g.node_in_edges [],
  length-push g.node_out_edges [],
)

-- In a consistent graph `add_node` succeeds. The new graph is consistent, and it has one node more,
-- whose id is the number of ids so far and whose type is the given one; no other node and no edge has
-- changed, and it is not levelized.
pub add_node-IsConsistent :
    (g : TimingGraph) (type : NodeType)
    → IsConsistent g
    → (g' : TimingGraph) × (add_node g type ≡ ok (g', some (length g.node_ids)))
      × IsConsistent g'
      × ((n : ℕ) → node_view g' n ≡ (if n == length g.node_ids then some type else node_view g n))
      × ((e : ℕ) → edge_view g' e ≡ edge_view g e)
      × (g'.is_levelized ≡ false)
unfolding edge_view node_view
add_node-IsConsistent g type h = (
  with_node g type,
  add_node_lem g type h,
  with_node-IsConsistent g type h,
  λ n. ground (
    arith,
    h.types_size,
    get_or-push g.node_ids (some (length g.node_ids)) none n,
    get_elem?-push g.node_types type n,
  ),
  λ e. refl,
  refl,
)

abbrev with_edge : TimingGraph → EdgeType → ℕ → ℕ → TimingGraph
with_edge g type n m = record (new_edge g type (some n) (some m)) {
  node_out_edges =
      set g.node_out_edges n (push_back (get_or g.node_out_edges n []) (some (length g.edge_ids)));
  node_in_edges =
      set g.node_in_edges m (push_back (get_or g.node_in_edges m []) (some (length g.edge_ids)));
}

same_edge_type_refl : (t : EdgeType) → same_edge_type t t ≡ true
same_edge_type_refl primitive_combinational = refl
same_edge_type_refl primitive_clock_launch = refl
same_edge_type_refl primitive_clock_capture = refl
same_edge_type_refl interconnect = refl

module _ (g : TimingGraph) (type : EdgeType) (n m : ℕ) (h : IsConsistent g) where
  with_edge-IsConsistent :
      alive g.node_ids n ≡ true → alive g.node_ids m ≡ true → IsConsistent (with_edge g type n m)
  with_edge-IsConsistent a b = record {
    types_size = h.types_size;
    edge_types_size = omega (
      arith,
      length-push g.edge_types type,
      length-push g.edge_ids (some (length g.edge_ids)),
      h.edge_types_size,
    );
    disabled_size = omega (
      arith,
      length-push g.edges_disabled false,
      length-push g.edge_ids (some (length g.edge_ids)),
      h.disabled_size,
    );
    own_nodes = h.own_nodes;
    own_edges = IdsAreOwn-push g.edge_ids h.own_edges;
    ins = AreRefs-push_edge h.ins m b (lt-length_of_alive g.node_ids m b);
    outs = AreRefs-push_edge h.outs n a (lt-length_of_alive g.node_ids n a);
  }

  add_edge_lem :
      n < length g.node_ids
      → m < length g.node_ids
      → add_edge g type (some n) (some m) ≡ ok (with_edge g type n m, some (length g.edge_ids))
  unfolding add_edge
  add_edge_lem p q =
      let new = length g.edge_ids in
      ground (
        arith,
        h.ins.refs_size,
        h.ins.ends_size,
        h.outs.refs_size,
        h.outs.ends_size,
        h.edge_types_size,
        length-push g.edge_ids (some new),
        length-push g.edge_src_nodes (some n),
        length-push g.edge_sink_nodes (some m),
        get_elem?_in g.node_out_edges n [],
        get_elem?_in g.node_in_edges m [],
        get_elem?-push g.edge_types type new,
        get_elem?-push g.edge_src_nodes (some n) new,
        get_elem?-push g.edge_sink_nodes (some m) new,
        same_edge_type_refl type,
      )

-- Between two nodes of a consistent graph `add_edge` succeeds: all its assertions hold. The new
-- graph is consistent, and it has one edge more, whose id is the number of ids so far, which is
-- not disabled and has the given type, source and sink; no other edge and no node has changed, and it
-- is not levelized.
pub add_edge-IsConsistent :
    (g : TimingGraph) (type : EdgeType) (n m : ℕ)
    → IsConsistent g
    → alive g.node_ids n ≡ true
    → alive g.node_ids m ≡ true
    → (g' : TimingGraph) × (add_edge g type (some n) (some m) ≡ ok (g', some (length g.edge_ids)))
      × IsConsistent g'
      × ((e : ℕ)
          → edge_view g' e ≡ (
              if e == length g.edge_ids
              then some (record {
                type = some type;
                src_node = some n;
                sink_node = some m;
                disabled = some false;
              })
              else edge_view g e))
      × ((i : ℕ) → node_view g' i ≡ node_view g i)
      × (g'.is_levelized ≡ false)
unfolding edge_view node_view
add_edge-IsConsistent g type n m h a b = (
  with_edge g type n m,
  add_edge_lem g type n m h (lt-length_of_alive g.node_ids n a) (lt-length_of_alive g.node_ids m b),
  with_edge-IsConsistent g type n m h a b,
  λ e. ground (
    arith,
    h.edge_types_size,
    h.disabled_size,
    h.ins.ends_size,
    h.outs.ends_size,
    get_or-push g.edge_ids (some (length g.edge_ids)) none e,
    get_elem?-push g.edge_types type e,
    get_or-push g.edge_src_nodes (some n) none e,
    get_or-push g.edge_sink_nodes (some m) none e,
    get_elem?-push g.edges_disabled false e,
  ),
  λ i. refl,
  refl,
)

-- The assertions of `add_edge` hold also for nodes that were removed: in a consistent graph the call
-- succeeds for two ids in range of which at least one, the source's or the sink's, is no longer in the
-- graph, and the new graph is inconsistent.
pub add_edge_removed :
    (g : TimingGraph) (type : EdgeType) (n m : ℕ)
    → IsConsistent g
    → n < length g.node_ids
    → m < length g.node_ids
    → (alive g.node_ids n ≡ false) ⊎ (alive g.node_ids m ≡ false)
    → (g' : TimingGraph) × (add_edge g type (some n) (some m) ≡ ok (g', some (length g.edge_ids)))
      × (¬ IsConsistent g')
add_edge_removed g type n m h p q dead = (
  with_edge g type n m,
  add_edge_lem g type n m h p q,
  λ c.
      let new = length g.edge_ids in
      elim dead [
        | inl no_source ↦
            let (k, src, live) =
              c.outs.live_ends new (ground (arith, get_or-push g.edge_ids (some new) none new)) in
            let added = get_or-push g.edge_src_nodes (some n) none new in
            ground (arith, h.outs.ends_size, added)
        | inr no_sink ↦
            let (k, snk, live) =
              c.ins.live_ends new (ground (arith, get_or-push g.edge_ids (some new) none new)) in
            ground (arith, h.ins.ends_size, get_or-push g.edge_sink_nodes (some m) none new)
      ],
)
