-- ===== src/Graph/Edit/RemoveNode.antt =====
-- The function `remove_node` of TimingGraph.cpp, against the view and the consistency of a graph.
use tatum.Prelude.{
  ℕ, ◌<◌, ◌≡◌, refl, inl, true, false, none, some, [], arith, length, get_or, get_elem?, set, ◌==◌,
  if◌then◌else◌, get_or-set, length-set, ap,
}
use tatum.Result.{ok}
use tatum.Container.Laws.{at_in, store_in, contain_in}
use tatum.Graph.{TimingGraph}
use tatum.Graph.View.{alive, edge_view, node_view}
use tatum.Graph.Edit.{remove_node, remove_all_refs, Direction, incoming, outgoing, refs_of}
use tatum.Graph.Edit.Refs.{points, AreRefs-drop_node}
use tatum.Graph.Edit.Consistent.{IsConsistent, IdsAreOwn-clear, lt-length_of_alive}
use tatum.Graph.Edit.Trim.{
  incident, refs_at, ends_of, counted_at, count_cleared, Trims, Cleared, Cleared-Clears, refs_in,
  remove_refs_lem,
}
use tatum.Graph.Edit.Remove.{Clears, Clears-refl}

remove_all_refs_lem :
    (d : Direction) (n : ℕ) (g₀ g : TimingGraph)
    → n < length g₀.node_ids
    → Trims n g₀ g
    → (g' : TimingGraph) × (remove_all_refs d (some n) g ≡ ok g')
      × Trims n g₀ g'
      × Cleared (length (refs_at d n g₀)) (refs_at d n g')
      × ((d' : Direction) → Clears (refs_at d' n g) (refs_at d' n g'))
unfolding remove_all_refs
remove_all_refs_lem d n g₀ g lt t =
    let read =
      at_in (refs_of d g) n []
        (refs_in d n g t.consistent (omega (arith, ap length t.same_nodes))) in
    let (g', run, t', c', k') =
      remove_refs_lem d n (length (refs_at d n g)) 0 g₀ g lt
        (omega (arith, (t.clears d).same_length)) t (λ j below. absurd (omega arith)) in
    (g', rw read run, t', c', k')

-- With all its entries INVALID, a node is the end (start) of no edge.
unused :
    (d : Direction) (n e : ℕ) (g : TimingGraph)
    → IsConsistent g
    → Cleared (length (refs_at d n g)) (refs_at d n g)
    → points g.edge_ids (ends_of d g) e n ≡ false
unused d n e g h c = ground (arith, counted_at d g n e h, count_cleared e (refs_at d n g) c)

-- What `remove_node` does to a consistent graph that has the node.
pub record RemovesNode (g : TimingGraph) (n : ℕ) (g' : TimingGraph) : Type 0 where
  pub success : remove_node g (some n) ≡ ok g'
  pub consistent : IsConsistent g'
  pub edges : (e : ℕ) → edge_view g' e ≡ (if incident g n e then none else edge_view g e)
  pub nodes : (i : ℕ) → node_view g' i ≡ (if i == n then none else node_view g i)

unlevelized-IsConsistent :
    {g : TimingGraph} → IsConsistent g → IsConsistent (record g { is_levelized = false })
unlevelized-IsConsistent h = record {
  types_size = h.types_size;
  edge_types_size = h.edge_types_size;
  disabled_size = h.disabled_size;
  own_nodes = h.own_nodes;
  own_edges = h.own_edges;
  ins = h.ins;
  outs = h.outs;
}

Trims-start :
    (n : ℕ) (g : TimingGraph) → IsConsistent g → Trims n g (record g { is_levelized = false })
unfolding edge_view
Trims-start n g h = record {
  consistent = unlevelized-IsConsistent h;
  same_sinks = refl;
  same_srcs = refl;
  same_nodes = refl;
  same_types = refl;
  view = λ e. inl refl;
  clears = elim [
    | incoming ↦ Clears-refl (refs_at incoming n g)
    | outgoing ↦ Clears-refl (refs_at outgoing n g)
  ];
}

drop_node-IsConsistent :
    (n : ℕ) (g : TimingGraph)
    → IsConsistent g
    → n < length g.node_ids
    → ((e : ℕ) → points g.edge_ids g.edge_sink_nodes e n ≡ false)
    → ((e : ℕ) → points g.edge_ids g.edge_src_nodes e n ≡ false)
    → IsConsistent (record g { node_ids = set g.node_ids n none })
drop_node-IsConsistent n g h lt ui uo = record {
  types_size = omega (arith, h.types_size, length-set g.node_ids n none);
  edge_types_size = h.edge_types_size;
  disabled_size = h.disabled_size;
  own_nodes = IdsAreOwn-clear g.node_ids n lt h.own_nodes;
  own_edges = h.own_edges;
  ins = AreRefs-drop_node h.ins n lt ui;
  outs = AreRefs-drop_node h.outs n lt uo;
}

module _ (n : ℕ) (g g' : TimingGraph) (t : Trims n g g') where
  trimmed_edge :
      (e : ℕ)
      → points g'.edge_ids g'.edge_sink_nodes e n ≡ false
      → points g'.edge_ids g'.edge_src_nodes e n ≡ false
      → edge_view g' e ≡ (if incident g n e then none else edge_view g e)
  unfolding edge_view
  trimmed_edge e i o = ground (
    arith,
    t.view e,
    ap (λ v. get_or v e none) t.same_sinks,
    ap (λ v. get_or v e none) t.same_srcs,
  )

  trimmed_node :
      n < length g'.node_ids
      → (i : ℕ)
      → node_view (record g' { node_ids = set g'.node_ids n none }) i
        ≡ (if i == n then none else node_view g i)
  unfolding node_view
  trimmed_node lt i = ground (
    arith,
    get_or-set g'.node_ids n i none none,
    ap (λ v. get_or v i none) t.same_nodes,
    ap (λ v. get_elem? v i) t.same_types,
  )

-- In a consistent graph that has the node, `remove_node` succeeds. The new graph is consistent, and
-- of the nodes the given one is gone, and of the edges those that start or end in it; every other
-- node and edge is as before.
pub remove_node-RemovesNode :
    (g : TimingGraph) (n : ℕ)
    → IsConsistent g
    → alive g.node_ids n ≡ true
    → (g' : TimingGraph) × RemovesNode g n g'
unfolding remove_node edge_view
remove_node-RemovesNode g n h a =
    let lt = lt-length_of_alive g.node_ids n a in
    let (g₁, run₁, t₁, c₁, _) = remove_all_refs_lem incoming n g _ lt (Trims-start n g h) in
    let (g₂, run₂, t₂, c₂, k₂) = remove_all_refs_lem outgoing n g g₁ lt t₁ in
    let lt₂ : n < length g₂.node_ids = omega (arith, ap length t₂.same_nodes) in
    let ui = λ (e : ℕ).
      unused incoming n e g₂ t₂.consistent
        (rw (t₂.clears incoming).same_length (Cleared-Clears (k₂ incoming) c₁)) in
    let uo =
      λ (e : ℕ). unused outgoing n e g₂ t₂.consistent (rw (t₂.clears outgoing).same_length c₂) in
    (
      record g₂ { node_ids = set g₂.node_ids n none },
      record {
        success = rw (contain_in g.node_ids n lt, run₁, run₂, store_in g₂.node_ids n none lt₂) refl;
        consistent =
            drop_node-IsConsistent n g₂ t₂.consistent lt₂ (unfold ends_of in ui)
              (unfold ends_of in uo);
        edges = λ e.
            unfold edge_view in
            trimmed_edge n g g₂ t₂ e (unfold ends_of in ui e) (unfold ends_of in uo e);
        nodes = trimmed_node n g g₂ t₂ lt₂;
      },
    )
