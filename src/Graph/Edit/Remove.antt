-- ===== src/Graph/Edit/Remove.antt =====
-- The function `remove_edge` of TimingGraph.cpp, against the view and the consistency of a graph.
use tatum.Prelude.{
  ℕ, zero, suc, ◌<◌, ◌≡◌, refl, ◌⊎◌, inl, inr, true, false, none, some, List, [], ◌∷◌, arith,
  length, get_or, get_elem?, set, ◌==◌, if◌then◌else◌, get_or-set, get_elem?_in, Bool-cases,
  Option-cases, length-set, subst,
}
use tatum.Result.{ok}
use tatum.Container.{same_id}
use tatum.Container.Laws.{at_in, contain_in}
use tatum.Graph.{TimingGraph, EdgeId}
use tatum.Graph.View.{alive, edge_view}
use tatum.Graph.Edit.{invalidate, drop_ref, remove_edge, Direction, incoming, outgoing, refs_of}
use tatum.Graph.Edit.Refs.{count, points, count-invalidate, AreRefs-drop_edge, lt-length_of_points}
use tatum.Graph.Edit.Consistent.{IsConsistent, IdsAreOwn-clear, lt-length_of_alive}

-- A list of references of which some entries have become INVALID, and that is else the same.
pub record Clears (es es' : List EdgeId) : Type 0 where
  pub same_length : length es' ≡ length es
  pub entry : (j : ℕ) → (get_elem? es' j ≡ get_elem? es j) ⊎ (get_elem? es' j ≡ some none)

pub Clears-refl : (es : List EdgeId) → Clears es es
Clears-refl es = record { same_length = refl; entry = λ j. inl refl }

pub Clears-trans : {es fs gs : List EdgeId} → Clears es fs → Clears fs gs → Clears es gs
Clears-trans p q = record {
  same_length = omega (arith, p.same_length, q.same_length);
  entry = λ j. ground (arith, p.entry j, q.entry j);
}

entry_cons :
    (x y : EdgeId) (es fs : List EdgeId)
    → ((y ≡ x) ⊎ (y ≡ none))
    → ((j : ℕ) → (get_elem? fs j ≡ get_elem? es j) ⊎ (get_elem? fs j ≡ some none))
    → (j : ℕ) → (get_elem? (y ∷ fs) j ≡ get_elem? (x ∷ es) j) ⊎ (get_elem? (y ∷ fs) j ≡ some none)
entry_cons x y es fs h rest zero = ground arith
entry_cons x y es fs h rest (suc j) = rest j

Clears-cons :
    (x y : EdgeId) {es fs : List EdgeId}
    → ((y ≡ x) ⊎ (y ≡ none))
    → Clears es fs
    → Clears (x ∷ es) (y ∷ fs)
Clears-cons x y {es} {fs} h p = record {
  same_length = omega (arith, p.same_length);
  entry = entry_cons x y es fs h p.entry;
}

invalidate-Clears : (k : EdgeId) (es es' : List EdgeId) → invalidate k es ≡ some es' → Clears es es'
unfolding invalidate
invalidate-Clears k [] es' h = cc
invalidate-Clears k (x ∷ es) es' h = elim (Bool-cases (same_id x k)) [
  | inl hit ↦
      let e : none ∷ es ≡ es' = ground arith in
      subst (Clears (x ∷ es)) e (Clears-cons x none (inr refl) (Clears-refl es))
  | inr miss ↦ elim (Option-cases (invalidate k es)) [
    | inl fail ↦ ground arith
    | inr (fs, found) ↦
        let e : x ∷ fs ≡ es' = ground arith in
        subst (Clears (x ∷ es)) e (Clears-cons x x (inl refl) (invalidate-Clears k es fs found))
  ]
]

-- A cleared list at one node, in the array of all nodes.
Clears-set :
    (refs : List (List EdgeId)) (n m : ℕ) (es : List EdgeId)
    → n < length refs
    → Clears (get_or refs n []) es
    → Clears (get_or refs m []) (get_or (set refs n es) m [])
Clears-set refs n m es lt c = elim (Bool-cases (n == m)) [
  | inl same ↦
      let e : n ≡ m = ground arith in
      subst (λ i. Clears (get_or refs i []) (get_or (set refs n es) m [])) e
        (rw (get_or-set refs n m es [] lt, same) c)
  | inr other ↦ rw (get_or-set refs n m es [] lt, other) (Clears-refl (get_or refs m []))
]

-- One direction of `remove_edge`.
drop_ref_lem :
    (refs : List (List EdgeId)) (n k : ℕ)
    → count k (get_or refs n []) ≡ 1
    → n < length refs
    → (es : List EdgeId) × (drop_ref refs (some n) (some k) ≡ ok (set refs n es))
      × ((e : ℕ) → count e (get_or refs n []) ≡ (if e == k then suc (count e es) else count e es))
      × Clears (get_or refs n []) es
drop_ref_lem refs n k one lt =
    let (es, found, dropped) = count-invalidate k (get_or refs n []) (omega arith) in
    (
      es,
      ground (arith, get_elem?_in refs n [], found),
      dropped,
      invalidate-Clears (some k) (get_or refs n []) es found,
    )

-- What `remove_edge` does to a consistent graph that has the edge.
pub record Removes (g : TimingGraph) (k : ℕ) (g' : TimingGraph) : Type 0 where
  pub success : remove_edge g (some k) ≡ ok g'
  pub consistent : IsConsistent g'
  pub same_sinks : g'.edge_sink_nodes ≡ g.edge_sink_nodes
  pub same_srcs : g'.edge_src_nodes ≡ g.edge_src_nodes
  pub same_nodes : g'.node_ids ≡ g.node_ids
  pub same_types : g'.node_types ≡ g.node_types
  pub view : (e : ℕ) → edge_view g' e ≡ (if e == k then none else edge_view g e)
  pub unlevelized : g'.is_levelized ≡ false
  pub clears :
      (d : Direction) (n : ℕ) → Clears (get_or (refs_of d g) n []) (get_or (refs_of d g') n [])

-- The value of `remove_edge`, from the values of its parts.
remove_edge_value :
    (g : TimingGraph) (k n m : ℕ) (outs ins : List (List EdgeId))
    → k < length g.edge_ids
    → k < length g.edge_src_nodes
    → k < length g.edge_sink_nodes
    → get_or g.edge_src_nodes k none ≡ some n
    → get_or g.edge_sink_nodes k none ≡ some m
    → drop_ref g.node_out_edges (some n) (some k) ≡ ok outs
    → drop_ref g.node_in_edges (some m) (some k) ≡ ok ins
    → remove_edge g (some k)
      ≡ ok (record g {
        is_levelized = false;
        node_out_edges = outs;
        node_in_edges = ins;
        edge_ids = set g.edge_ids k none;
      })
unfolding remove_edge
remove_edge_value g k n m outs ins lt lts ltk src snk o i =
    rw
      (
        contain_in g.edge_ids k lt,
        at_in g.edge_src_nodes k none lts,
        src,
        o,
        at_in g.edge_sink_nodes k none ltk,
        snk,
        i,
      )
      refl

-- In a consistent graph that has the edge, `remove_edge` succeeds. The new graph is consistent and
-- not levelized, and it has every other node and edge as before, and the edge no longer. The lists
-- of references keep their lengths, and no entry changes but to INVALID.
pub remove_edge-Removes :
    (g : TimingGraph) (k : ℕ)
    → IsConsistent g
    → alive g.edge_ids k ≡ true
    → (g' : TimingGraph) × Removes g k g'
unfolding edge_view
remove_edge-Removes g k h a =
    let (n, src, _) = h.outs.live_ends k a in
    let (m, snk, _) = h.ins.live_ends k a in
    let lt = lt-length_of_alive g.edge_ids k a in
    let pn : points g.edge_ids g.edge_src_nodes k n ≡ true = ground arith in
    let pm : points g.edge_ids g.edge_sink_nodes k m ≡ true = ground arith in
    let ltn = lt-length_of_points h.outs n k pn in
    let ltm = lt-length_of_points h.ins m k pm in
    let (outs, o1, o2, o3) =
      drop_ref_lem g.node_out_edges n k (ground (arith, h.outs.counted n k)) ltn in
    let (ins, i1, i2, i3) =
      drop_ref_lem g.node_in_edges m k (ground (arith, h.ins.counted m k)) ltm in
    let g' = record g {
      is_levelized = false;
      node_out_edges = set g.node_out_edges n outs;
      node_in_edges = set g.node_in_edges m ins;
      edge_ids = set g.edge_ids k none;
    } in
    (
      g',
      record {
        success =
            remove_edge_value g k n m _ _ lt (omega (arith, h.outs.ends_size))
              (omega (arith, h.ins.ends_size)) src snk o1 i1;
        consistent = record {
          types_size = h.types_size;
          edge_types_size = omega (arith, h.edge_types_size, length-set g.edge_ids k none);
          disabled_size = omega (arith, h.disabled_size, length-set g.edge_ids k none);
          own_nodes = h.own_nodes;
          own_edges = IdsAreOwn-clear g.edge_ids k lt h.own_edges;
          ins = AreRefs-drop_edge h.ins k m ins lt pm i2;
          outs = AreRefs-drop_edge h.outs k n outs lt pn o2;
        };
        same_sinks = refl;
        same_srcs = refl;
        same_nodes = refl;
        same_types = refl;
        view = λ e. ground (arith, get_or-set g.edge_ids k e none none);
        unlevelized = refl;
        clears = elim [
          | incoming ↦ λ i. Clears-set g.node_in_edges m i ins ltm i3
          | outgoing ↦ λ i. Clears-set g.node_out_edges n i outs ltn o3
        ];
      },
    )
