-- ===== src/Graph/Levelize/Open.antt =====
-- The fan-in counts of `force_levelize` (TimingGraph.cpp) against the references of the graph: which
-- edges the walk has not passed yet, and lists of ids in range.
use tatum.Prelude.{
  ℕ, suc, ◌+◌, ◌<◌, ◌≡◌, refl, Bool, true, false, ◌||◌, none, some, List, [], ◌∷◌, ◌++◌, arith,
  length, get_or, ◌==◌, if◌then◌else◌, get_elem?_in, Bool-cases, inl, inr,
}
use tatum.Result.{ok}
use tatum.Container.{StrongId}
use tatum.Graph.{TimingGraph, EdgeId, NodeId, count_active_edges}
use tatum.Graph.Edit.Refs.{AreRefs, count, points}
use tatum.Graph.Edit.Consistent.{lt-length_of_alive}
use tatum.Graph.Validate.Values.{AllSet}

-- Every id of a list is valid and below a bound.
unfoldable pub AllBelow : ℕ → List StrongId → Type 0
AllBelow n [] = Unit {0}
AllBelow n (none ∷ xs) = ⊥
AllBelow n (some i ∷ xs) = (i < n) × AllBelow n xs

pub AllBelow-push :
    (n i : ℕ) (xs : List StrongId) → i < n → AllBelow n xs → AllBelow n (xs ++ some i ∷ [])
unfolding AllBelow
AllBelow-push n i [] lt h = (lt, tt)
AllBelow-push n i (none ∷ xs) lt h = absurd h
AllBelow-push n i (some j ∷ xs) lt (a, h) = (a, AllBelow-push n i xs lt h)

pub AllBelow-AllSet :
    (n : ℕ) (xs : List StrongId) → AllSet xs → ((e : ℕ) → 0 < count e xs → e < n) → AllBelow n xs
unfolding AllBelow count
AllBelow-AllSet n [] set h = tt
AllBelow-AllSet n (none ∷ xs) set h = let (e, is_e) = set 0 none refl in absurd cc
AllBelow-AllSet n (some i ∷ xs) set h = (
  h i (ground arith),
  AllBelow-AllSet n xs (λ k. set (suc k)) (λ e seen. h e (ground (arith, seen))),
)

-- The references of a node of a compact graph are edges of the graph.
pub AllBelow-refs :
    {node_ids : List NodeId} {edge_ids : List EdgeId} {refs : List (List EdgeId)}
    {ends : List NodeId} (n : ℕ)
    → AreRefs node_ids edge_ids refs ends
    → AllSet (get_or refs n [])
    → AllBelow (length edge_ids) (get_or refs n [])
AllBelow-refs {edge_ids = edge_ids} {ends = ends} n r set = AllBelow-AllSet _ _ set (λ e seen.
    lt-length_of_alive edge_ids e (
      let pt : points edge_ids ends e n ≡ true = ground (arith, seen, r.counted n e) in
      ground (arith, pt)))

module _ (g : TimingGraph) where
  -- An edge that the walk has passed, or that is disabled, is counted no more.
  abbrev pub closed : (ℕ → Bool) → EdgeId → Bool
  closed passed none = true
  closed passed (some e) = get_or g.edges_disabled e true || passed e

  unfoldable pub pending : (ℕ → Bool) → List EdgeId → ℕ
  pending passed [] = 0
  pending passed (e ∷ es) = if closed passed e then pending passed es else suc (pending passed es)

  abbrev pub mark : ℕ → (ℕ → Bool) → ℕ → Bool
  mark k passed e = if e == k then true else passed e

  -- To pass an edge that is active takes away as many as there are references to it.
  pub pending-mark :
      (passed : ℕ → Bool) (k : ℕ) (es : List EdgeId)
      → get_or g.edges_disabled k true ≡ false
      → passed k ≡ false
      → pending passed es ≡ pending (mark k passed) es + count k es
  unfolding pending count
  pending-mark passed k [] on new = refl
  pending-mark passed k (none ∷ es) on new = pending-mark passed k es on new
  pending-mark passed k (some e ∷ es) on new =
      ground (arith, pending-mark passed k es on new, on, new)

  -- Where nothing is pending, every active edge has been passed.
  pub passed_of_pending :
      (passed : ℕ → Bool) (e : ℕ) (es : List EdgeId)
      → pending passed es ≡ 0
      → 0 < count e es
      → get_or g.edges_disabled e true ≡ false
      → passed e ≡ true
  unfolding pending count
  passed_of_pending passed e [] h seen on = absurd (omega arith)
  passed_of_pending passed e (none ∷ es) h seen on = passed_of_pending passed e es h seen on
  passed_of_pending passed e (some i ∷ es) h seen on = elim (Bool-cases (i == e)) [
    | inl same ↦
        let is_e : i ≡ e = ground arith in
        let there : closed passed (some i) ≡ true = ground (arith, h) in
        ground (arith, there, is_e, on)
    | inr other ↦ passed_of_pending passed e es (ground (arith, h)) (ground (arith, seen)) on
  ]

  pub count_active_edges-pending :
      (es : List EdgeId)
      → AllBelow (length g.edges_disabled) es
      → count_active_edges g es ≡ ok (pending (λ _. false) es)
  unfolding AllBelow pending count_active_edges
  count_active_edges-pending [] h = refl
  count_active_edges-pending (none ∷ es) h = absurd h
  count_active_edges-pending (some e ∷ es) (lt, h) =
      rw (get_elem?_in g.edges_disabled e true lt, count_active_edges-pending es h) (ground arith)
