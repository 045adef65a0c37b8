-- ===== src/Analysis/Incremental/Edges.antt =====
-- The invalidated edges of libtatum/tatum/graph_walkers/SerialIncrWalker.hpp.
use tatum.Prelude.{
  ℕ, ◌≡◌, refl, sym, ◌∙◌, inl, inr, true, false, ◌||◌, some, arith, if◌then◌else◌, Bool-cases,
}
use tatum.Result.{ok}
use tatum.Result.Ends.{Returns}
use tatum.Container.{same_id}
use tatum.Container.Laws.{same_id→eq}
use tatum.Graph.{EdgeId}
use tatum.Analysis.Queue.{is_marked}
use tatum.Analysis.Queue.Marks.{count, count-push, mark_lem}
use tatum.Analysis.Incremental.{IncrWalk, invalidate_edge}

-- The bitset of the invalidated edges is that of their list, which has no edge twice.
abbrev pub IsInvalidated : {S : Type 0} → IncrWalk S → Type 0
IsInvalidated w =
    (e : EdgeId) → count e w.invalidated_edges ≡ (if is_marked w.edge_invalidated e then 1 else 0)

-- What is left alone when an edge is invalidated.
pub record SameQueues {S : Type 0} (w w' : IncrWalk S) : Type 0 where
  pub arr : w'.incr_arr_update ≡ w.incr_arr_update
  pub req : w'.incr_req_update ≡ w.incr_req_update
  pub tables : w'.tables ≡ w.tables
  pub modified : w'.nodes_modified ≡ w.nodes_modified

module _ {S : Type 0} where
  -- An edge that is invalidated already changes nothing.
  pub invalidate_edge_old :
      (edge : EdgeId) (w : IncrWalk S)
      → is_marked w.edge_invalidated edge ≡ true
      → invalidate_edge edge w ≡ ok w
  unfolding invalidate_edge
  invalidate_edge_old edge w old = rw (invalidate_edge, old) refl

module _ {S : Type 0} (i : ℕ) (w : IncrWalk S) where
  -- The edge is invalidated, all others are as they were, and the list and the bitset still agree.
  pub invalidate_edge-IsInvalidated :
      IsInvalidated w
      → Returns
          (λ w'.
            IsInvalidated w'
            × ((m : EdgeId)
                → is_marked w'.edge_invalidated m
                  ≡ (same_id (some i) m || is_marked w.edge_invalidated m))
            × SameQueues w w')
          (invalidate_edge (some i) w)
  unfolding invalidate_edge
  invalidate_edge-IsInvalidated h = elim (Bool-cases (is_marked w.edge_invalidated (some i))) [
    | inl old ↦
        rw (invalidate_edge, old)
          (
            h,
            λ m. elim (Bool-cases (same_id (some i) m)) [
              | inl same ↦ rw (same, sym (same_id→eq (some i) m same)) old
              | inr other ↦ rw other refl
            ],
            record { arr = refl; req = refl; tables = refl; modified = refl },
          )
    | inr new ↦
        let (bits, run, marks) = mark_lem w.edge_invalidated i in
        rw (invalidate_edge, new, run)
          (
            λ e.
                count-push e (some i) w.invalidated_edges ∙ elim (Bool-cases (same_id (some i) e)) [
                  | inl same ↦
                      let is_e : some i ≡ e = same_id→eq (some i) e same in
                      let new_e : is_marked w.edge_invalidated e ≡ false = rw (sym is_e) new in
                      rw (marks e, same, h e, new_e) refl
                  | inr other ↦ rw (marks e, other, h e) ground arith
                ],
            marks,
            record { arr = refl; req = refl; tables = refl; modified = refl },
          )
  ]
