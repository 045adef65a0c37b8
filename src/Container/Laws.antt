-- ===== src/Container/Laws.antt =====
-- Indexing of a linear_map within its range, and checks that pass.
use tatum.Prelude.{
  ℕ, ◌<◌, ◌≡◌, refl, true, none, some, List, arith, length, get_or, set, get_elem?_in, ◌==◌,
}
use tatum.Result.{ok, check}
use tatum.Container.{at, store, contain, StrongId, same_id}

module _ {ℓ} {V : Type ℓ} where
  pub at_in :
      (vec : List V) (i : ℕ) (d : V) → i < length vec → at vec (some i) ≡ ok (get_or vec i d)
  at_in vec i d h = rw (get_elem?_in vec i d h)

  pub store_in :
      (vec : List V) (i : ℕ) (v : V) → i < length vec → store vec (some i) v ≡ ok (set vec i v)
  store_in vec i v h = ground arith

  pub contain_in : (vec : List V) (i : ℕ) → i < length vec → contain vec (some i) ≡ true
  contain_in vec i h = ground arith

pub check_eq : (a b : ℕ) → a ≡ b → check (a == b) ≡ ok tt
check_eq a b h = ground arith

pub same_id_refl : (a : StrongId) → same_id a a ≡ true
same_id_refl none = refl
same_id_refl (some i) = ground arith

pub same_id→eq : (a b : StrongId) → same_id a b ≡ true → a ≡ b
same_id→eq none none h = refl
same_id→eq none (some j) h = cc
same_id→eq (some i) none h = cc
same_id→eq (some i) (some j) h = ground arith
