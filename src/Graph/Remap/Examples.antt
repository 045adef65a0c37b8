-- ===== src/Graph/Remap/Examples.antt =====
-- Runs of the renumbering on three ids, of which the middle one was removed.
use tatum.Prelude.{
  ℕ, ◌≡◌, ◌<◌, refl, inl, inr, none, some, List, [], ◌∷◌, length, get_or, get_elem?, zero, suc,
}
use tatum.Result.{ok}
use tatum.Container.{StrongId}
use tatum.Graph.Remap.{compress_ids, clean_and_reorder_values, clean_and_reorder_ids}
use tatum.Graph.Remap.Ids.{renumber, Own, compress_ids-eq-renumber}
use tatum.Graph.Remap.Values.{kept, compress_values, clean_and_reorder_values-eq-kept}

abbrev ids : List StrongId
ids = some 0 ∷ none ∷ some 2 ∷ []

abbrev values : List ℕ
values = 7 ∷ 8 ∷ 9 ∷ []

ids-Own : Own ids
ids-Own zero = inr refl
ids-Own (suc zero) = inl refl
ids-Own (suc (suc zero)) = inr refl
ids-Own (suc (suc (suc i))) = inl refl

compress_ids-eq-renumber_example : compress_ids ids ≡ ok (renumber 0 ids)
compress_ids-eq-renumber_example = compress_ids-eq-renumber ids ids-Own

clean_and_reorder_values-eq-kept_example :
    clean_and_reorder_values 0 values (renumber 0 ids) ≡ ok (kept values ids)
clean_and_reorder_values-eq-kept_example = clean_and_reorder_values-eq-kept 0 values ids refl

compress_values_example :
    (id_map : List StrongId) × (new_ids : List StrongId) × (result : List ℕ) × (compress_ids ids
      ≡ ok id_map)
    × ((n k : ℕ)
        → get_elem? ids n ≡ some (some k)
        → (j : ℕ) × (j < length new_ids) × (get_elem? id_map n ≡ some (some j)))
    × ((n : ℕ) → get_elem? ids n ≡ some none → get_elem? id_map n ≡ some none)
    × ((m n a b : ℕ)
        → m < n
        → get_elem? id_map m ≡ some (some a)
        → get_elem? id_map n ≡ some (some b)
        → a < b)
    × (clean_and_reorder_ids id_map ≡ ok new_ids)
    × (clean_and_reorder_values 0 values id_map ≡ ok result)
    × (length result ≡ length new_ids)
    × ((j : ℕ) → j < length new_ids → get_or new_ids j none ≡ some j)
    × ((j : ℕ) → j < length new_ids → (n : ℕ) × (get_elem? id_map n ≡ some (some j)))
    × ((n j : ℕ) → get_elem? id_map n ≡ some (some j) → get_elem? result j ≡ get_elem? values n)
compress_values_example = compress_values 0 values ids ids-Own refl
