-- ===== src/Graph/Remap/Values.antt =====
-- The functions `clean_and_reorder_*` of TimingGraph.cpp under the map of `compress_ids`.
use tatum.Prelude.{
  ℕ, zero, suc, ◌+◌, ◌≤◌, ◌<◌, ◌≡◌, refl, none, some, List, [], ◌∷◌, ◌++◌, arith, length, get_or,
  get_elem?, ap, sym, length-push, set-append, shift,
}
use tatum.Result.{ok}
use tatum.Container.{StrongId, insert, resize}
use tatum.Graph.Remap.{
  compress_ids, clean_loop, clean_and_reorder_values, clean_ids_loop, clean_and_reorder_ids,
}
use native.Mathlib.Nat.{zero-add}
use tatum.Graph.Remap.Ids.{renumber, Own, compress_ids-eq-renumber}
use tatum.Container.Laws.{check_eq}
use mathlib.Core.List.{append-nil}

-- The values of the valid ids, in order.
pub kept {ℓ} : {T : Type ℓ} → List T → List StrongId → List T
kept [] ids = []
kept (v ∷ values) [] = []
kept (v ∷ values) (none ∷ ids) = kept values ids
kept (v ∷ values) (some k ∷ ids) = v ∷ kept values ids

-- i, i + 1, ... for every valid id.
pub counted_ids : ℕ → List StrongId → List StrongId
counted_ids i [] = []
counted_ids i (none ∷ ids) = counted_ids i ids
counted_ids i (some k ∷ ids) = some i ∷ counted_ids (suc i) ids

length-renumber : (i : ℕ) (ids : List StrongId) → length (renumber i ids) ≡ length ids
unfolding renumber
length-renumber i [] = refl
length-renumber i (none ∷ ids) = ap suc (length-renumber i ids)
length-renumber i (some k ∷ ids) = ap suc (length-renumber (suc i) ids)

module _ {ℓ} {T : Type ℓ} (d : T) where
  resize-suc : (r : List T) → resize r (suc (length r)) d ≡ r ++ d ∷ []
  unfolding resize
  resize-suc [] = refl
  resize-suc (x ∷ r) = ap (◌∷◌ x) (resize-suc r)

  -- An insertion at the end.
  insert_end : (r : List T) (v : T) → insert d r (some (length r)) v ≡ ok (r ++ v ∷ [])
  unfolding insert
  insert_end r v = ground (arith, resize-suc r, set-append r [] d v)

  clean_loop_lem :
      (values : List T) (ids : List StrongId) (r : List T) (i : ℕ)
      → i ≡ length r
      → clean_loop d values (renumber i ids) r ≡ ok (r ++ kept values ids)
  unfolding clean_loop renumber kept
  clean_loop_lem [] ids r i e = ap ok (sym (append-nil r))
  clean_loop_lem (v ∷ values) [] r i e = ap ok (sym (append-nil r))
  clean_loop_lem (v ∷ values) (none ∷ ids) r i e = clean_loop_lem values ids r i e
  clean_loop_lem (v ∷ values) (some k ∷ ids) r i e =
      rw (e, insert_end r v, shift r v (kept values ids))
        (clean_loop_lem values ids (r ++ v ∷ []) (suc (length r)) (sym (length-push r v)))

  -- For an array with one value for every id, `clean_and_reorder_values` under the map that numbers
  -- the valid ids gives the values of the valid ids, in their order.
  pub clean_and_reorder_values-eq-kept :
      (values : List T) (ids : List StrongId)
      → length values ≡ length ids
      → clean_and_reorder_values d values (renumber 0 ids) ≡ ok (kept values ids)
  unfolding clean_and_reorder_values
  clean_and_reorder_values-eq-kept values ids e =
      rw (check_eq (length values) (length (renumber 0 ids)) (omega (arith, length-renumber 0 ids)))
        (clean_loop_lem values ids [] 0 refl)

-- The new ids are at least the first one.
renumber_ge :
    (i n j : ℕ) (ids : List StrongId) → get_elem? (renumber i ids) n ≡ some (some j) → i ≤ j
unfolding renumber
renumber_ge i n j [] h = cc
renumber_ge i zero j (none ∷ ids) h = cc
renumber_ge i (suc n) j (none ∷ ids) h = renumber_ge i n j ids h
renumber_ge i zero j (some k ∷ ids) h = ground arith
renumber_ge i (suc n) j (some k ∷ ids) h = omega (arith, renumber_ge (suc i) n j ids h)

-- What stands at the new id of a valid id is the value of the old id.
kept_at {ℓ} :
    {T : Type ℓ} (values : List T) (ids : List StrongId) (i n j : ℕ)
    → get_elem? (renumber i ids) n ≡ some (some (i + j))
    → get_elem? (kept values ids) j ≡ get_elem? values n
unfolding renumber kept
kept_at values [] i n j h = cc
kept_at [] (none ∷ ids) i n j h = refl
kept_at [] (some k ∷ ids) i n j h = refl
kept_at (v ∷ values) (none ∷ ids) i zero j h = cc
kept_at (v ∷ values) (none ∷ ids) i (suc n) j h = kept_at values ids i n j h
kept_at (v ∷ values) (some k ∷ ids) i zero zero h = refl
kept_at (v ∷ values) (some k ∷ ids) i zero (suc j) h = ground arith
kept_at (v ∷ values) (some k ∷ ids) i (suc n) zero h =
    absurd (omega (arith, renumber_ge (suc i) n (i + 0) ids h))
kept_at (v ∷ values) (some k ∷ ids) i (suc n) (suc j) h =
    let e : suc i + j ≡ i + suc j = omega arith in kept_at values ids (suc i) n j (rw e h)

clean_ids_loop_lem :
    (ids r : List StrongId) (i : ℕ)
    → i ≡ length r
    → clean_ids_loop (renumber i ids) r ≡ ok (r ++ counted_ids i ids)
unfolding clean_ids_loop renumber counted_ids
clean_ids_loop_lem [] r i e = ap ok (sym (append-nil r))
clean_ids_loop_lem (none ∷ ids) r i e = clean_ids_loop_lem ids r i e
clean_ids_loop_lem (some k ∷ ids) r i e =
    rw
      (
        e,
        insert_end none r (some (length r)),
        shift r (some (length r)) (counted_ids (suc (length r)) ids),
      )
      (clean_ids_loop_lem ids (r ++ some (length r) ∷ []) (suc (length r))
        (sym (length-push r (some (length r)))))

counted_own :
    (i j : ℕ) (ids : List StrongId)
    → j < length (counted_ids i ids)
    → get_or (counted_ids i ids) j none ≡ some (i + j)
unfolding counted_ids
counted_own i j [] h = elim h [ ]
counted_own i j (none ∷ ids) h = counted_own i j ids h
counted_own i zero (some k ∷ ids) h = ground arith
counted_own i (suc j) (some k ∷ ids) h = ground (arith, counted_own (suc i) j ids)

length-kept {ℓ} :
    {T : Type ℓ} (i : ℕ) (values : List T) (ids : List StrongId)
    → length values ≡ length ids
    → length (kept values ids) ≡ length (counted_ids i ids)
unfolding kept counted_ids
length-kept i [] [] e = refl
length-kept i [] (x ∷ ids) e = ground arith
length-kept i (v ∷ values) [] e = ground arith
length-kept i (v ∷ values) (none ∷ ids) e = length-kept i values ids (omega arith)
length-kept i (v ∷ values) (some k ∷ ids) e = ap suc (length-kept (suc i) values ids (omega arith))

-- Every new id is the new id of an old one.
renumber_onto :
    (i j : ℕ) (ids : List StrongId)
    → j < length (counted_ids i ids)
    → (n : ℕ) × (get_elem? (renumber i ids) n ≡ some (some (i + j)))
unfolding renumber counted_ids
renumber_onto i j [] h = elim h [ ]
renumber_onto i j (none ∷ ids) h = let (n, e) = renumber_onto i j ids h in (suc n, e)
renumber_onto i zero (some k ∷ ids) h = (0, ground arith)
renumber_onto i (suc j) (some k ∷ ids) h =
    let (n, e) = renumber_onto (suc i) j ids (omega arith) in
    let q : i + suc j ≡ suc i + j = omega arith in (suc n, rw q e)

-- A valid id has a new one, which is one of those that are counted.
renumber_total :
    (i n k : ℕ) (ids : List StrongId)
    → get_elem? ids n ≡ some (some k)
    → (j : ℕ) × (j < length (counted_ids i ids))
      × (get_elem? (renumber i ids) n ≡ some (some (i + j)))
unfolding renumber counted_ids
renumber_total i n k [] h = cc
renumber_total i zero k (none ∷ ids) h = cc
renumber_total i (suc n) k (none ∷ ids) h = renumber_total i n k ids h
renumber_total i zero k (some x ∷ ids) h = (0, ground arith, ground arith)
renumber_total i (suc n) k (some x ∷ ids) h =
    let (j, lt, e) = renumber_total (suc i) n k ids h in
    let q : i + suc j ≡ suc i + j = omega arith in (suc j, omega arith, rw q e)

renumber_invalid :
    (i n : ℕ) (ids : List StrongId)
    → get_elem? ids n ≡ some none
    → get_elem? (renumber i ids) n ≡ some none
unfolding renumber
renumber_invalid i n [] h = cc
renumber_invalid i zero (none ∷ ids) h = refl
renumber_invalid i (suc n) (none ∷ ids) h = renumber_invalid i n ids h
renumber_invalid i zero (some x ∷ ids) h = cc
renumber_invalid i (suc n) (some x ∷ ids) h = renumber_invalid (suc i) n ids h

-- Of two ids that stay, the one that stands first gets the lower new id.
renumber_mono :
    (i m n a b : ℕ) (ids : List StrongId)
    → m < n
    → get_elem? (renumber i ids) m ≡ some (some a)
    → get_elem? (renumber i ids) n ≡ some (some b)
    → a < b
unfolding renumber
renumber_mono i m n a b [] lt p q = cc
renumber_mono i m zero a b (x ∷ ids) lt p q = ground arith
renumber_mono i zero (suc n) a b (none ∷ ids) lt p q = cc
renumber_mono i (suc m) (suc n) a b (none ∷ ids) lt p q =
    renumber_mono i m n a b ids (omega arith) p q
renumber_mono i zero (suc n) a b (some k ∷ ids) lt p q =
    let later = renumber_ge (suc i) n b ids q in ground (arith, later)
renumber_mono i (suc m) (suc n) a b (some k ∷ ids) lt p q =
    renumber_mono (suc i) m n a b ids (omega arith) p q

-- Let each id be its own index or INVALID, and `values` an array with one value for every id. Then
-- `compress_ids` returns an id map, under which `clean_and_reorder_ids` and `clean_and_reorder_values`
-- return arrays of one length. The map gives each valid id a new id below that length, and each
-- INVALID one INVALID; it keeps the order of the valid ids, and each index below that length is a new
-- id. The array of new ids has the entry j at each index j, and the array of values has at the new id
-- of each valid id the value that the old array had at the old id.
pub compress_values {ℓ} :
    {T : Type ℓ} (d : T) (values : List T) (ids : List StrongId)
    → Own ids
    → length values ≡ length ids
    → (id_map : List StrongId) × (new_ids : List StrongId) × (result : List T) × (compress_ids ids
        ≡ ok id_map)
      × ((n k : ℕ)
          → get_elem? ids n ≡ some (some k)
          → (j : ℕ) × (j < length new_ids) × (get_elem? id_map n ≡ some (some j)))
      × ((n : ℕ) → get_elem? ids n ≡ some none → get_elem? id_map n ≡ some none)
      × ((m n a b : ℕ)
          → m < n
          → get_elem? id_map m ≡ some (some a)
          → get_elem? id_map n ≡ some (some b)
          → a < b)
      × (clean_and_reorder_ids id_map ≡ ok new_ids)
      × (clean_and_reorder_values d values id_map ≡ ok result)
      × (length result ≡ length new_ids)
      × ((j : ℕ) → j < length new_ids → get_or new_ids j none ≡ some j)
      × ((j : ℕ) → j < length new_ids → (n : ℕ) × (get_elem? id_map n ≡ some (some j)))
      × ((n j : ℕ) → get_elem? id_map n ≡ some (some j) → get_elem? result j ≡ get_elem? values n)
unfolding clean_and_reorder_ids
compress_values d values ids own e = (
  renumber 0 ids,
  counted_ids 0 ids,
  kept values ids,
  compress_ids-eq-renumber ids own,
  λ n k h. let (j, lt, q) = renumber_total 0 n k ids h in (j, lt, rw zero-add at q),
  λ n h. renumber_invalid 0 n ids h,
  λ m n a b lt p q. renumber_mono 0 m n a b ids lt p q,
  clean_ids_loop_lem ids [] 0 refl,
  clean_and_reorder_values-eq-kept d values ids e,
  length-kept 0 values ids e,
  λ j lt. rw (counted_own 0 j ids lt) (ap some (zero-add j)),
  λ j lt. let (n, q) = renumber_onto 0 j ids lt in (n, rw zero-add at q),
  λ n j h. kept_at values ids 0 n j (rw zero-add h),
)
