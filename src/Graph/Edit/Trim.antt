-- ===== src/Graph/Edit/Trim.antt =====
-- The loops of `remove_node` (TimingGraph.cpp): what holds while the edges of a node are
-- removed one by one from the vector that the loop walks.
use tatum.Prelude.{
  ℕ, zero, suc, ◌+◌, ◌<◌, ◌≡◌, ◌≢◌, refl, ◌⊎◌, inl, inr, Bool, true, false, ◌||◌, none, some, List,
  [], ◌∷◌, arith, length, get_or, get_elem?, ◌==◌, if◌then◌else◌, get_elem?_in, Bool-cases, ◌∙◌, ap,
  Option-cases,
}
use tatum.Result.{ok}
use tatum.Container.{same_id}
use tatum.Container.Laws.{at_in}
use tatum.Graph.{TimingGraph, NodeId, EdgeId}
use tatum.Graph.View.{alive, edge_view}
use tatum.Graph.Edit.{remove_refs, Direction, incoming, outgoing, refs_of}
use tatum.Graph.Edit.Refs.{count, points}
use tatum.Graph.Edit.Consistent.{IsConsistent}
use tatum.Graph.Edit.Remove.{Clears, Clears-refl, Clears-trans, Removes, remove_edge-Removes}

-- The edge starts or ends in the node.
abbrev pub incident : TimingGraph → ℕ → ℕ → Bool
incident g n e =
    same_id (get_or g.edge_sink_nodes e none) (some n)
    || same_id (get_or g.edge_src_nodes e none) (some n)

abbrev pub refs_at : Direction → ℕ → TimingGraph → List EdgeId
refs_at d n g = get_or (refs_of d g) n []

pub get-count : (k i : ℕ) (es : List EdgeId) → get_elem? es i ≡ some (some k) → 0 < count k es
unfolding count
get-count k i [] h = cc
get-count k zero (x ∷ es) h = ground arith
get-count k (suc i) (x ∷ es) h = ground (arith, get-count k i es)

pub count_cleared :
    (e : ℕ) (es : List EdgeId)
    → ((j : ℕ) → j < length es → get_elem? es j ≡ some none)
    → count e es ≡ 0
unfolding count
count_cleared e [] h = refl
count_cleared e (x ∷ es) h =
    ground (arith, h 0 (omega arith), count_cleared e es (λ j lt. h (suc j) (omega arith)))

unfoldable pub ends_of : Direction → TimingGraph → List NodeId
ends_of incoming g = g.edge_sink_nodes
ends_of outgoing g = g.edge_src_nodes

-- The references of a node count the edges of the graph that end (start) in it.
pub counted_at :
    (d : Direction) (g : TimingGraph) (n e : ℕ)
    → IsConsistent g
    → count e (refs_at d n g) ≡ (if points g.edge_ids (ends_of d g) e n then 1 else 0)
unfolding ends_of
counted_at incoming g n e h = h.ins.counted n e
counted_at outgoing g n e h = h.outs.counted n e

-- What holds of the graph `g` while the edges of node `n` are removed from `g₀`.
pub record Trims (n : ℕ) (g₀ g : TimingGraph) : Type 0 where
  pub consistent : IsConsistent g
  pub same_sinks : g.edge_sink_nodes ≡ g₀.edge_sink_nodes
  pub same_srcs : g.edge_src_nodes ≡ g₀.edge_src_nodes
  pub same_nodes : g.node_ids ≡ g₀.node_ids
  pub same_types : g.node_types ≡ g₀.node_types
  pub view :
      (e : ℕ)
      → (edge_view g e ≡ edge_view g₀ e) ⊎ ((edge_view g e ≡ none) × (incident g₀ n e ≡ true))
  pub clears : (d : Direction) → Clears (refs_at d n g₀) (refs_at d n g)

-- An edge that the node refers to is in the graph, and starts or ends in the node.
referred :
    (d : Direction) (n k i : ℕ) (g : TimingGraph)
    → IsConsistent g
    → get_elem? (refs_at d n g) i ≡ some (some k)
    → (alive g.edge_ids k ≡ true) × (incident g n k ≡ true)
unfolding ends_of
referred incoming n k i g h e =
    ground (arith, counted_at incoming g n k h, get-count k i (refs_at incoming n g) e)
referred outgoing n k i g h e =
    ground (arith, counted_at outgoing g n k h, get-count k i (refs_at outgoing n g) e)

-- An edge that is not in the graph is not referred to.
not_referred :
    (d : Direction) (n k i : ℕ) (g : TimingGraph)
    → IsConsistent g
    → alive g.edge_ids k ≡ false
    → get_elem? (refs_at d n g) i ≢ some (some k)
not_referred d n k i g h a e = ground (arith, referred d n k i g h e)

removed_dead : {g g' : TimingGraph} {k : ℕ} → Removes g k g' → alive g'.edge_ids k ≡ false
unfolding edge_view
removed_dead {k = k} r = ground (arith, r.view k)

Trims-step :
    (n k : ℕ) (g₀ g g' : TimingGraph)
    → Trims n g₀ g
    → incident g n k ≡ true
    → Removes g k g'
    → Trims n g₀ g'
Trims-step n k g₀ g g' t inc r = record {
  consistent = r.consistent;
  same_sinks = r.same_sinks ∙ t.same_sinks;
  same_srcs = r.same_srcs ∙ t.same_srcs;
  same_nodes = r.same_nodes ∙ t.same_nodes;
  same_types = r.same_types ∙ t.same_types;
  view = λ e. ground (
    arith,
    t.view e,
    r.view e,
    ap (λ v. get_or v k none) t.same_sinks,
    ap (λ v. get_or v k none) t.same_srcs,
  );
  clears = λ d. Clears-trans (t.clears d) (r.clears d n);
}

-- The entries below a position are INVALID.
abbrev pub Cleared : ℕ → List EdgeId → Type 0
Cleared i es = (j : ℕ) → j < i → get_elem? es j ≡ some none

Cleared-extend :
    {i : ℕ} (es : List EdgeId) → Cleared i es → get_elem? es i ≡ some none → Cleared (suc i) es
Cleared-extend {i} es c e j lt = elim (Bool-cases (j == i)) [
  | inl same ↦ let eq : j ≡ i = ground arith in rw eq e
  | inr other ↦ c j (ground arith)
]

pub Cleared-Clears : {i : ℕ} {es es' : List EdgeId} → Clears es es' → Cleared i es → Cleared i es'
Cleared-Clears p c j lt = ground (arith, p.entry j, c j lt)

pub refs_in :
    (d : Direction) (n : ℕ) (g : TimingGraph)
    → IsConsistent g
    → n < length g.node_ids
    → n < length (refs_of d g)
refs_in incoming n g h lt = omega (arith, h.ins.refs_size)
refs_in outgoing n g h lt = omega (arith, h.outs.refs_size)

-- The entry that a round removes is INVALID after it.
cleared_here :
    (d : Direction) (n k i : ℕ) (g g' : TimingGraph)
    → get_elem? (refs_at d n g) i ≡ some (some k)
    → Removes g k g'
    → get_elem? (refs_at d n g') i ≡ some none
cleared_here d n k i g g' e r = elim ((r.clears d n).entry i) [
  | inl same ↦ absurd (not_referred d n k i g' r.consistent (removed_dead r) (same ∙ e))
  | inr gone ↦ gone
]

-- The loop from position `i` on: it ends with every entry INVALID.
pub remove_refs_lem :
    (d : Direction) (n rounds i : ℕ) (g₀ g : TimingGraph)
    → n < length g₀.node_ids
    → i + rounds ≡ length (refs_at d n g₀)
    → Trims n g₀ g
    → Cleared i (refs_at d n g)
    → (g' : TimingGraph) × (remove_refs d (some n) rounds i g ≡ ok g')
      × Trims n g₀ g'
      × Cleared (length (refs_at d n g₀)) (refs_at d n g')
      × ((d' : Direction) → Clears (refs_at d' n g) (refs_at d' n g'))
unfolding remove_refs
remove_refs_lem d n zero i g₀ g lt sz t c =
    let e : i ≡ length (refs_at d n g₀) = omega arith in
    (g, refl, t, rw e at c, λ d'. Clears-refl (refs_at d' n g))
remove_refs_lem d n (suc rounds) i g₀ g lt sz t c =
    let read =
      at_in (refs_of d g) n []
        (refs_in d n g t.consistent (omega (arith, ap length t.same_nodes))) in
    let entry = get_elem?_in (refs_at d n g) i none (omega (arith, (t.clears d).same_length)) in
    elim (Option-cases (get_or (refs_at d n g) i none)) [
      | inl gap ↦
          let (g', run, t', c', k') =
            remove_refs_lem d n rounds (suc i) g₀ g lt (omega arith) t
              (Cleared-extend (refs_at d n g) c (entry ∙ ap some gap)) in
          (g', rw (read, entry, gap) run, t', c', k')
      | inr (k, hit) ↦
          let (live, inc) = referred d n k i g t.consistent (entry ∙ ap some hit) in
          let (g₁, r) = remove_edge-Removes g k t.consistent live in
          let t₁ = Trims-step n k g₀ g g₁ t inc r in
          let c₁ =
            Cleared-extend (refs_at d n g₁) (Cleared-Clears (r.clears d n) c)
              (cleared_here d n k i g g₁ (entry ∙ ap some hit) r) in
          let (g', run, t', c', k') =
            remove_refs_lem d n rounds (suc i) g₀ g₁ lt (omega arith) t₁ c₁ in
          (
            g',
            rw (read, entry, hit, r.success) run,
            t',
            c',
            λ d'. Clears-trans (r.clears d' n) (k' d'),
          )
    ]
