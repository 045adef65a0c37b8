-- ===== src/Container.antt =====
-- libtatum/tatum/util: `StrongId` (tatum_strong_id.hpp) and `linear_map` (tatum_linear_map.hpp).
-- An id is its number, and INVALID is `none`. A linear_map is the list of its values.
pub mod Laws
use tatum.Prelude.{
  ℕ, zero, suc, Bool, true, false, Option, none, some, List, [], ◌∷◌, ◌++◌, length, get_elem?, set,
  replicate, ltb, ◌==◌, if◌then◌else◌,
}
use tatum.Result.{Result, ok, err, out_of_range, or_fault}

-- A StrongId: `none` is INVALID().
abbrev pub StrongId : Type 0
StrongId = Option ℕ

-- operator bool
abbrev pub is_valid : StrongId → Bool
is_valid none = false
is_valid (some i) = true

-- operator==
abbrev pub same_id : StrongId → StrongId → Bool
same_id none none = true
same_id none (some j) = false
same_id (some i) none = false
same_id (some i) (some j) = i == j

module _ {ℓ} {V : Type ℓ} where
  -- size_t(id) < size(): INVALID is -1, which converts to the largest size_t.
  abbrev pub contain : List V → StrongId → Bool
  contain vec none = false
  contain vec (some i) = ltb i (length vec)

  -- operator[] for reading
  abbrev pub at : List V → StrongId → Result V
  at vec none = err out_of_range
  at vec (some i) = or_fault (get_elem? vec i) out_of_range

  -- operator[] for writing
  abbrev pub store : List V → StrongId → V → Result (List V)
  store vec none v = err out_of_range
  store vec (some i) v = if ltb i (length vec) then ok (set vec i v) else err out_of_range

  abbrev pub push_back : List V → V → List V
  push_back vec v = vec ++ v ∷ []

  -- resize(n), where `d` is the default value V()
  unfoldable pub resize : List V → ℕ → V → List V
  resize [] n d = replicate n d
  resize (x ∷ vec) zero d = []
  resize (x ∷ vec) (suc n) d = x ∷ resize vec n d

  -- insert(key, value): grows the vector so that the key is in range. size_t(INVALID) + 1 is 0.
  unfoldable pub insert : V → List V → StrongId → V → Result (List V)
  unfolding resize
  insert d vec none v = err out_of_range
  insert d vec (some i) v =
      if ltb i (length vec) then ok (set vec i v) else ok (set (resize vec (suc i) d) i v)
