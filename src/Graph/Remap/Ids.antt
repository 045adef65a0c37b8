-- ===== src/Graph/Remap/Ids.antt =====
-- The function `compress_ids` of TimingGraph.cpp, and a numbering in order to compare it with.
use tatum.Prelude.{
  ℕ, suc, ◌+◌, ◌<◌, ◌≡◌, refl, ◌⊎◌, none, some, List, [], ◌∷◌, ◌++◌, arith, length, get_or,
  replicate, length-append, ap, lt→ltb, length-push, set-append, shift,
}
use tatum.Result.{ok}
use tatum.Container.{StrongId, insert}
use tatum.Graph.Remap.{compress_loop, compress_ids}

-- The new id of every old id: the number of valid ids before it, from `i` on.
unfoldable pub renumber : ℕ → List StrongId → List StrongId
renumber i [] = []
renumber i (none ∷ ids) = none ∷ renumber i ids
renumber i (some k ∷ ids) = some i ∷ renumber (suc i) ids

abbrev OwnFrom : ℕ → List StrongId → Type 0
OwnFrom p [] = Unit
OwnFrom p (x ∷ ids) = ((x ≡ none) ⊎ (x ≡ some p)) × OwnFrom (suc p) ids

abbrev pub Own : List StrongId → Type 0
Own ids = (i : ℕ) → (get_or ids i none ≡ none) ⊎ (get_or ids i none ≡ some i)

OwnFrom-index :
    (p : ℕ) (ids : List StrongId)
    → ((i : ℕ) → (get_or ids i none ≡ none) ⊎ (get_or ids i none ≡ some (p + i)))
    → OwnFrom p ids
OwnFrom-index p [] h = tt
OwnFrom-index p (x ∷ ids) h =
    (ground (arith, h 0), OwnFrom-index (suc p) ids (λ i. ground (arith, h (suc i))))

insert_here :
    (pre post : List StrongId) (x v : StrongId) (k : ℕ)
    → k ≡ length pre
    → insert none (pre ++ x ∷ post) (some k) v ≡ ok (pre ++ v ∷ post)
unfolding insert
insert_here pre post x v k e =
    let lt : k < length (pre ++ x ∷ post) = omega (arith, length-append pre (x ∷ post)) in
    rw (lt→ltb k (length (pre ++ x ∷ post)) lt, e) (ap ok (set-append pre post x v))

compress_loop_lem :
    (ids pre : List StrongId) (i : ℕ)
    → OwnFrom (length pre) ids
    → compress_loop ids i (pre ++ replicate (length ids) none) ≡ ok (pre ++ renumber i ids)
unfolding compress_loop renumber
compress_loop_lem [] pre i h = refl
compress_loop_lem (none ∷ ids) pre i h =
    rw (shift pre none (replicate (length ids) none), shift pre none (renumber i ids))
      (compress_loop_lem ids (pre ++ none ∷ []) i (rw (length-push pre none) h.1))
compress_loop_lem (some k ∷ ids) pre i h =
    rw
      (
        insert_here pre (replicate (length ids) none) none (some i) k (ground arith),
        shift pre (some i) (replicate (length ids) none),
        shift pre (some i) (renumber (suc i) ids),
      )
      (compress_loop_lem ids (pre ++ some i ∷ []) (suc i) (rw (length-push pre (some i)) h.1))

-- If every id is its own index or INVALID, `compress_ids` maps each valid id to the number of valid
-- ids before it, and each invalid one to INVALID.
pub compress_ids-eq-renumber :
    (ids : List StrongId) → Own ids → compress_ids ids ≡ ok (renumber 0 ids)
unfolding compress_ids
compress_ids-eq-renumber ids h =
    compress_loop_lem ids [] 0 (OwnFrom-index 0 ids (λ i. ground (arith, h i)))
