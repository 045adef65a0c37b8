-- ===== src/Graph/Levelize/Visit.antt =====
-- The walk of `force_levelize` (TimingGraph.cpp) on a consistent graph: the visits of a whole level.
use tatum.Prelude.{
  ℕ, ◌<◌, ◌≤◌, ◌≡◌, ◌⊎◌, inl, inr, Bool, true, false, none, some, List, [], ◌∷◌, arith, length,
  get_or, get_elem?_in,
}
use tatum.Result.{for_each}
use tatum.Result.Ends.{Returns, Returns-bind, Returns-mono}
use tatum.Container.Laws.{same_id→eq}
use tatum.Graph.{TimingGraph, EdgeId, NodeId}
use tatum.Graph.Edit.Refs.{count, points}
use tatum.Graph.Edit.Consistent.{IsConsistent}
use tatum.Graph.Validate.Values.{IsCompact}
use tatum.Graph.Levelize.{Walk, visit_edge, visit_node}
use tatum.Graph.Levelize.Open.{AllBelow, AllBelow-refs}
use tatum.Graph.Levelize.Order.{IsWalk, src, Gone, Stepped, visit_edge-IsWalk}

module _ (g : TimingGraph) (h : IsConsistent g) (k : IsCompact g) where
  -- The state after a visit of `c`: what is passed anew starts in `c`.
  abbrev Visited : ℕ → List NodeId → (ℕ → Bool) → Walk → Type 0
  Visited c rest passed w =
      (after : ℕ → Bool) × IsWalk g rest after w
      × ((f : ℕ) → after f ≡ true → (passed f ≡ true) ⊎ (src g f ≡ some c))

  visit_edges-IsWalk :
      (c : ℕ) (rest : List NodeId) (es : List EdgeId) (passed : ℕ → Bool) (w : Walk)
      → IsWalk g rest passed w
      → Gone g h k c rest w
      → AllBelow (length g.edge_ids) es
      → ((e : ℕ) → count e es ≤ 1)
      → ((e : ℕ) → 0 < count e es → (src g e ≡ some c) × (passed e ≡ false))
      → Returns (Visited c rest passed) (for_each es w (visit_edge g))
  unfolding for_each AllBelow count
  visit_edges-IsWalk c rest [] passed w i gone below once new = (passed, i, λ f p. inl p)
  visit_edges-IsWalk c rest (none ∷ es) passed w i gone below once new = absurd below
  visit_edges-IsWalk c rest (some e ∷ es) passed w i gone (e_lt, below) once new =
      let (from, unpassed) = new e (ground arith) in
      Returns-bind (Stepped g h k c rest passed e) (Visited c rest passed) (visit_edge g (some e) w)
        _ (visit_edge-IsWalk g h k rest passed w c e i e_lt unpassed from gone)
        (λ w' (after, i', gone', only).
          Returns-mono (Visited c rest after) (Visited c rest passed) _
            (visit_edges-IsWalk c rest es after w' i' gone' below (λ f. ground (arith, once f))
              (λ f seen.
                let (starts, was) = new f (ground (arith, seen)) in
                (starts, ground (arith, only f, was, once f, seen))))
            (λ w'' (later, i'', more). (
              later,
              i'',
              λ f p. elim (more f p) [
                | inl q ↦ elim (only f q) [ inl old ↦ inl old | inr same ↦ inr (rw same from) ]
                | inr starts ↦ inr starts
              ],
            )))

  visit_node-IsWalk :
      (c : ℕ) (rest : List NodeId) (passed : ℕ → Bool) (w : Walk)
      → IsWalk g (some c ∷ rest) passed w
      → Returns (Visited c rest passed) (visit_node g (some c) w)
  unfolding visit_node count AllBelow
  visit_node-IsWalk c rest passed w i =
      let (c_lt, rest_below) = i.rest_below in
      rw (get_elem?_in g.node_out_edges c [] (omega (arith, h.outs.refs_size, c_lt))) (
        visit_edges-IsWalk c rest (get_or g.node_out_edges c []) passed w
          (record {
            sized = i.sized;
            counts = i.counts;
            fresh = λ n f waits starts. i.fresh n f (ground (arith, waits)) starts;
            once = λ n. ground (arith, i.once n);
            placed = λ n seen. i.placed n (ground (arith, seen));
            rest_below = rest_below;
            next_below = i.next_below;
            last_below = i.last_below;
          })
          (ground (arith, i.once c, i.placed c)) (AllBelow-refs c h.outs (k.outs c))
          (λ e. ground (arith, h.outs.counted c e))
          (λ e seen.
            let pt : points g.edge_ids g.edge_src_nodes e c ≡ true =
              ground (arith, seen, h.outs.counted c e) in
            let from : src g e ≡ some c =
              same_id→eq (get_or g.edge_src_nodes e none) (some c) (ground (arith, pt)) in
            (from, i.fresh c e (ground arith) from)))

  -- What is passed anew starts in a node of the level.
  abbrev pub Rounded : List NodeId → (ℕ → Bool) → Walk → Type 0
  Rounded current passed w =
      (after : ℕ → Bool) × IsWalk g [] after w
      × ((f : ℕ)
          → after f ≡ true
          → (passed f ≡ true) ⊎ ((n : ℕ) × (src g f ≡ some n) × (0 < count n current)))

  pub visit_nodes-IsWalk :
      (current : List NodeId) (passed : ℕ → Bool) (w : Walk)
      → IsWalk g current passed w
      → Returns (Rounded current passed) (for_each current w (visit_node g))
  unfolding for_each count AllBelow
  visit_nodes-IsWalk [] passed w i = (passed, i, λ f p. inl p)
  visit_nodes-IsWalk (none ∷ rest) passed w i = absurd i.rest_below
  visit_nodes-IsWalk (some c ∷ rest) passed w i =
      Returns-bind (Visited c rest passed) (Rounded (some c ∷ rest) passed)
        (visit_node g (some c) w) _ (visit_node-IsWalk c rest passed w i)
        (λ w' (after, i', only).
          Returns-mono (Rounded rest after) (Rounded (some c ∷ rest) passed) _
            (visit_nodes-IsWalk rest after w' i')
            (λ w'' (later, i'', more). (
              later,
              i'',
              λ f p. elim (more f p) [
                | inl q ↦ elim (only f q) [
                  | inl old ↦ inl old
                  | inr starts ↦ inr (c, starts, ground arith)
                ]
                | inr (n, starts, there) ↦ inr (n, starts, ground (arith, there))
              ],
            )))
