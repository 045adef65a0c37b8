-- ===== src/Graph/Validate/Values.antt =====
-- The function `validate_values` of TimingGraph.cpp on graphs without removed entries.
use tatum.Prelude.{
  ℕ, suc, ◌<◌, ◌≡◌, sym, ap, ◌∙◌, refl, true, some, none, List, [], ◌∷◌, length, get_elem?, get_or,
  arith, lt-length_of_get, get_or_of_get, lt→ltb, get_elem?_in,
}
use tatum.Result.{Result, ok, Message}
use tatum.Container.{StrongId, same_id}
use tatum.Container.Laws.{same_id→eq}
use tatum.Graph.{TimingGraph, NodeId, EdgeId}
use tatum.Graph.View.{alive}
use tatum.Graph.Edit.Refs.{AreRefs, count, points}
use tatum.Graph.Edit.Trim.{get-count}
use tatum.Graph.Edit.Consistent.{IsConsistent, lt-length_of_alive}
use tatum.Graph.Validate.{each, check_ref, check_node_values, check_edge_values, validate_values}

-- No reference is INVALID.
abbrev pub AllSet : List EdgeId → Type 0
AllSet es = (i : ℕ) (x : EdgeId) → get_elem? es i ≡ some x → (e : ℕ) × (x ≡ some e)

-- Nothing of the graph has been removed since its ids were last given.
pub record IsCompact (g : TimingGraph) : Type 0 where
  pub nodes : (i : ℕ) → i < length g.node_ids → alive g.node_ids i ≡ true
  pub edges : (i : ℕ) → i < length g.edge_ids → alive g.edge_ids i ≡ true
  pub ins : (n : ℕ) → AllSet (get_or g.node_in_edges n [])
  pub outs : (n : ℕ) → AllSet (get_or g.node_out_edges n [])

each_ok {ℓ} :
    {A : Type ℓ} (xs : List A) (body : A → Result (Unit {0}))
    → ((i : ℕ) (x : A) → get_elem? xs i ≡ some x → body x ≡ ok tt)
    → each xs body ≡ ok tt
unfolding each
each_ok [] body h = refl
each_ok (x ∷ xs) body h = rw (h 0 x refl) (each_ok xs body (λ i. h (suc i)))

alive_entry :
    (ids : List StrongId) (i : ℕ) (x : StrongId)
    → get_elem? ids i ≡ some x
    → alive ids i ≡ true
    → x ≡ some i
alive_entry ids i x h a =
    sym (get_or_of_get ids i x none h) ∙ same_id→eq (get_or ids i none) (some i) a

module _ (g : TimingGraph) (h : IsConsistent g) (c : IsCompact g) where
  check_refs_ok :
      {refs : List (List EdgeId)} {ends : List NodeId} (bad mismatched : Message) (n : ℕ)
      → AreRefs g.node_ids g.edge_ids refs ends
      → AllSet (get_or refs n [])
      → each (get_or refs n []) (check_ref g ends bad mismatched (some n)) ≡ ok tt
  unfolding check_ref
  check_refs_ok {refs = refs} {ends = ends} bad mismatched n r set = each_ok _ _ (λ i x e.
      let (k, own) = set i x e in
      let seen : 0 < count k (get_or refs n []) =
        get-count k i (get_or refs n []) (e ∙ ap some own) in
      let pt : points g.edge_ids ends k n ≡ true = ground (arith, seen, r.counted n k) in
      let live : alive g.edge_ids k ≡ true = ground (arith, pt) in
      let there : same_id (get_or ends k none) (some n) ≡ true = ground (arith, pt) in
      let inside : k < length g.edge_ids = lt-length_of_alive g.edge_ids k live in
      rw
        (
          own,
          lt→ltb k (length g.edge_ids) inside,
          get_elem?_in ends k none (omega (arith, r.ends_size)),
          there,
        )
        refl)

  check_node_values_ok : (n : ℕ) → n < length g.node_ids → check_node_values g (some n) ≡ ok tt
  unfolding check_node_values
  check_node_values_ok n lt =
      rw
        (
          lt→ltb n (length g.node_ids) lt,
          get_elem?_in g.node_in_edges n [] (omega (arith, h.ins.refs_size)),
          check_refs_ok Message.bad_in_edge Message.mismatched_sink n h.ins (c.ins n),
          get_elem?_in g.node_out_edges n [] (omega (arith, h.outs.refs_size)),
        )
        (check_refs_ok Message.bad_out_edge Message.mismatched_src n h.outs (c.outs n))

  check_edge_values_ok : (e : ℕ) → e < length g.edge_ids → check_edge_values g (some e) ≡ ok tt
  unfolding check_edge_values
  check_edge_values_ok e lt =
      let (s, from, src_live) = h.outs.live_ends e (c.edges e lt) in
      let (t, to, sink_live) = h.ins.live_ends e (c.edges e lt) in
      rw
        (
          lt→ltb e (length g.edge_ids) lt,
          get_elem?_in g.edge_src_nodes e none (omega (arith, h.outs.ends_size)),
          from,
          lt→ltb s (length g.node_ids) (lt-length_of_alive g.node_ids s src_live),
          get_elem?_in g.edge_sink_nodes e none (omega (arith, h.ins.ends_size)),
          to,
          lt→ltb t (length g.node_ids) (lt-length_of_alive g.node_ids t sink_live),
        )
        refl

-- validate_values returns true for a consistent graph from which nothing has been removed since its ids
-- were last given: no check throws.
pub validate_values-accepts :
    (g : TimingGraph) → IsConsistent g → IsCompact g → validate_values g ≡ ok true
unfolding validate_values
validate_values-accepts g h c =
    let nodes = each_ok g.node_ids (check_node_values g) (λ i x e.
      let lt = lt-length_of_get g.node_ids i x e in
      rw (alive_entry g.node_ids i x e (c.nodes i lt)) (check_node_values_ok g h c i lt)) in
    let edges = each_ok g.edge_ids (check_edge_values g) (λ i x e.
      let lt = lt-length_of_get g.edge_ids i x e in
      rw (alive_entry g.edge_ids i x e (c.edges i lt)) (check_edge_values_ok g h c i lt)) in
    rw (nodes, edges) refl
