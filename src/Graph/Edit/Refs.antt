-- ===== src/Graph/Edit/Refs.antt =====
-- What it is for the references of the nodes and the end points of the edges to agree, and how the
-- writes of the edit functions keep it. One direction at a time: the in-edges with the sinks, the
-- out-edges with the sources.
use tatum.Prelude.{
  ℕ, suc, ◌<◌, ◌≡◌, ◌⊎◌, inl, inr, Bool, true, false, ◌&&◌, none, some, List, [], ◌∷◌, ◌++◌, arith,
  length, get_or, set, ◌==◌, if◌then◌else◌, length-append, length-set, get_or-set, get_or-push,
  get_or_out, Bool-cases,
}
use tatum.Container.{same_id, StrongId}
use tatum.Graph.{NodeId, EdgeId}
use tatum.Graph.View.{alive}
use tatum.Graph.Edit.{invalidate}

-- How often an edge occurs in a list of references.
unfoldable pub count : ℕ → List EdgeId → ℕ
count e [] = 0
count e (x ∷ xs) = if same_id x (some e) then suc (count e xs) else count e xs

abbrev pub IdsAreOwn : List StrongId → Type 0
IdsAreOwn ids = (i : ℕ) → (get_or ids i none ≡ none) ⊎ (get_or ids i none ≡ some i)

-- Edge `e` is in the graph and ends (starts) in node `n`.
abbrev pub points : List EdgeId → List NodeId → ℕ → ℕ → Bool
points edge_ids ends e n = alive edge_ids e && same_id (get_or ends e none) (some n)

-- A node refers exactly once to each edge in the graph that has it as its end, and to no other
-- edge, so not to a removed one; and the ends of the edges in the graph are nodes in the graph.
pub record AreRefs (node_ids : List NodeId) (edge_ids : List EdgeId) (refs : List (List EdgeId))
    (ends : List NodeId) : Type 0 where
  pub refs_size : length refs ≡ length node_ids
  pub ends_size : length ends ≡ length edge_ids
  pub counted : (n e : ℕ) → count e (get_or refs n []) ≡ (if points edge_ids ends e n then 1 else 0)
  pub live_ends :
      (e : ℕ)
      → alive edge_ids e ≡ true
      → (n : ℕ) × (get_or ends e none ≡ some n) × (alive node_ids n ≡ true)

pub count-push :
    (e k : ℕ) (es : List EdgeId)
    → count e (es ++ some k ∷ []) ≡ (if e == k then suc (count e es) else count e es)
unfolding count
count-push e k [] = ground arith
count-push e k (none ∷ es) = count-push e k es
count-push e k (some j ∷ es) = ground (arith, count-push e k es)

-- `invalidate` finds a counted edge, and takes one occurrence of it away and nothing else.
pub count-invalidate :
    (k : ℕ) (es : List EdgeId)
    → 0 < count k es
    → (es' : List EdgeId) × (invalidate (some k) es ≡ some es')
      × ((e : ℕ) → count e es ≡ (if e == k then suc (count e es') else count e es'))
unfolding count invalidate
count-invalidate k [] h = absurd (omega arith)
count-invalidate k (none ∷ es) h =
    let (es', p, q) = count-invalidate k es h in (none ∷ es', ground (arith, p), λ e. q e)
count-invalidate k (some j ∷ es) h = elim (Bool-cases (j == k)) [
  | inl hit ↦ (none ∷ es, ground arith, λ e. ground arith)
  | inr miss ↦
      let (es', p, q) = count-invalidate k es (ground arith) in
      (some j ∷ es', ground (arith, p), λ e. ground (arith, q e))
]

module _ {node_ids : List NodeId} {edge_ids : List EdgeId} {refs : List (List EdgeId)}
    {ends : List NodeId} (h : AreRefs node_ids edge_ids refs ends) where
  -- A new node has no references.
  pub AreRefs-push_node :
      AreRefs (node_ids ++ some (length node_ids) ∷ []) edge_ids (refs ++ [] ∷ []) ends
  unfolding count
  AreRefs-push_node = record {
    refs_size = omega (
      arith,
      h.refs_size,
      length-append refs ([] ∷ []),
      length-append node_ids (some (length node_ids) ∷ []),
    );
    ends_size = h.ends_size;
    counted = λ n e. ground (arith, get_or-push refs [] [] n, get_or_out refs n [], h.counted n e);
    live_ends = λ e a.
        let (n, p, q) = h.live_ends e a in
        (n, p, ground (arith, get_or-push node_ids (some (length node_ids)) none n, q));
  }

  -- A new edge is referred to by the node that it ends in.
  pub AreRefs-push_edge :
      (n : ℕ)
      → alive node_ids n ≡ true
      → n < length node_ids
      → AreRefs node_ids
          (edge_ids ++ some (length edge_ids) ∷ [])
          (set refs n (get_or refs n [] ++ some (length edge_ids) ∷ []))
          (ends ++ some n ∷ [])
  AreRefs-push_edge n live lt = record {
    refs_size =
        omega
          (arith, h.refs_size, length-set refs n (get_or refs n [] ++ some (length edge_ids) ∷ []));
    ends_size = omega (
      arith,
      h.ends_size,
      length-append ends (some n ∷ []),
      length-append edge_ids (some (length edge_ids) ∷ []),
    );
    counted = λ m e. ground (
      arith,
      h.refs_size,
      h.ends_size,
      h.counted n e,
      h.counted m e,
      get_or-set refs n m (get_or refs n [] ++ some (length edge_ids) ∷ []) [],
      count-push e (length edge_ids) (get_or refs n []),
      get_or-push edge_ids (some (length edge_ids)) none e,
      get_or-push ends (some n) none e,
      get_or_out edge_ids e none,
    );
    live_ends = λ e a. elim (Bool-cases (e == length edge_ids)) [
      | inl new ↦ (n, ground (arith, h.ends_size, get_or-push ends (some n) none e), live)
      | inr old ↦
          let (m, p, q) =
            h.live_ends e
              (ground (arith, get_or-push edge_ids (some (length edge_ids)) none e, a)) in
          (m, ground (arith, h.ends_size, get_or-push ends (some n) none e), q)
    ];
  }

  pub lt-length_of_points : (n e : ℕ) → points edge_ids ends e n ≡ true → n < length refs
  unfolding count
  lt-length_of_points n e pt = ground (arith, h.counted n e, get_or_out refs n [])

  -- An edge that is removed is dropped by the node that it ends in.
  pub AreRefs-drop_edge :
      (k n : ℕ) (es : List EdgeId)
      → k < length edge_ids
      → points edge_ids ends k n ≡ true
      → ((e : ℕ) → count e (get_or refs n []) ≡ (if e == k then suc (count e es) else count e es))
      → AreRefs node_ids (set edge_ids k none) (set refs n es) ends
  AreRefs-drop_edge k n es lt pt dropped = record {
    refs_size = omega (arith, h.refs_size, length-set refs n es);
    ends_size = omega (arith, h.ends_size, length-set edge_ids k none);
    counted = λ m e. ground (
      arith,
      h.counted n e,
      h.counted m e,
      dropped e,
      get_or-set refs n m es [],
      lt-length_of_points n k pt,
      get_or-set edge_ids k e none none,
    );
    live_ends = λ e a. h.live_ends e (ground (arith, get_or-set edge_ids k e none none, a));
  }

  -- A node that no edge ends in can be removed.
  pub AreRefs-drop_node :
      (n : ℕ)
      → n < length node_ids
      → ((e : ℕ) → points edge_ids ends e n ≡ false)
      → AreRefs (set node_ids n none) edge_ids refs ends
  AreRefs-drop_node n lt unused = record {
    refs_size = omega (arith, h.refs_size, length-set node_ids n none);
    ends_size = h.ends_size;
    counted = h.counted;
    live_ends = λ e a.
        let (m, p, q) = h.live_ends e a in
        (m, p, ground (arith, unused e, get_or-set node_ids n m none none, a, p, q));
  }
