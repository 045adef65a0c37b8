-- ===== src/Result/Ends.antt =====
-- What holds of a run that does not use up its fuel: the value has a property, or the program stops
-- with a fault of its own.
use tatum.Prelude.{
  ℕ, ◌<◌, ◌≡◌, ◌≢◌, refl, Bool, true, false, none, some, List, [], ◌∷◌, arith, length, get_elem?,
  set, ltb, Bool-cases, Option-cases, inl, inr,
}
use tatum.Result.{Result, ok, err, out_of_fuel, check, for_each, ◌>>=◌, ◌>>◌}
use tatum.Container.{StrongId, at, store}

module _ {ℓ} {A : Type ℓ} where
  abbrev pub Ends : (A → Type 0) → Result A → Type 0
  Ends P (err fault) = fault ≢ out_of_fuel
  Ends P (ok a) = P a

module _ {ℓ} {A : Type ℓ} where
  pub Ends-branch :
      (P : A → Type 0) (b : Bool) (x y : Result A)
      → (b ≡ true → Ends P x)
      → (b ≡ false → Ends P y)
      → Ends P (elim b [ true ↦ x | false ↦ y ])
  Ends-branch P true x y h k = h refl
  Ends-branch P false x y h k = k refl

module _ {ℓ κ} {A : Type ℓ} {B : Type κ} where
  pub Ends-empty :
      (P : A → Type 0) (xs : List B) (x y : Result A)
      → (xs ≡ [] → Ends P x)
      → ((b : B) (bs : List B) → xs ≡ b ∷ bs → Ends P y)
      → Ends P (elim xs [ [] ↦ x | _ ∷ _ ↦ y ])
  Ends-empty P [] x y h k = h refl
  Ends-empty P (b ∷ bs) x y h k = k b bs refl

module _ {ℓ} {A : Type ℓ} where
  pub Ends-mono : (P Q : A → Type 0) (r : Result A) → Ends P r → ((a : A) → P a → Q a) → Ends Q r
  Ends-mono P Q (err fault) h k = h
  Ends-mono P Q (ok a) h k = k a h

  pub Ends→≢ : (P : A → Type 0) (r : Result A) → Ends P r → r ≢ err out_of_fuel
  Ends→≢ P (err fault) h e = h cc
  Ends→≢ P (ok a) h e = cc

module _ {ℓ κ} {A : Type ℓ} {B : Type κ} where
  pub Ends-bind :
      (P : A → Type 0) (Q : B → Type 0) (r : Result A) (next : A → Result B)
      → Ends P r
      → ((a : A) → P a → Ends Q (next a))
      → Ends Q (r >>= next)
  Ends-bind P Q (err fault) next h k = h
  Ends-bind P Q (ok a) next h k = k a h

module _ {ℓ κ} {A : Type ℓ} {B : Type κ} where
  -- An invariant of the state holds after a loop, if every round keeps it.
  pub Ends-for_each :
      (P : B → Type 0) (xs : List A) (s : B) (body : A → B → Result B)
      → P s
      → ((x : A) (t : B) → P t → Ends P (body x t))
      → Ends P (for_each xs s body)
  unfolding for_each
  Ends-for_each P [] s body h k = h
  Ends-for_each P (x ∷ xs) s body h k =
      Ends-bind P P (body x s) (λ t. for_each xs t body) (k x s h)
        (λ t p. Ends-for_each P xs t body p k)

module _ {V : Type 0} where
  pub Ends-at :
      (vec : List V) (id : StrongId)
      → Ends (λ v. (i : ℕ) × (id ≡ some i) × (get_elem? vec i ≡ some v)) (at vec id)
  Ends-at vec none = λ e. cc
  Ends-at vec (some i) = elim (Option-cases (get_elem? vec i)) [
    | inl out ↦ rw out (λ e. cc)
    | inr (v, there) ↦ rw there (i, refl, there)
  ]

  pub Ends-store :
      (vec : List V) (id : StrongId) (v : V)
      → Ends
          (λ vec'. (i : ℕ) × (id ≡ some i) × (i < length vec) × (vec' ≡ set vec i v))
          (store vec id v)
  Ends-store vec none v = λ e. cc
  Ends-store vec (some i) v = elim (Bool-cases (ltb i (length vec))) [
    | inl in_range ↦ rw in_range (i, refl, ground arith, refl)
    | inr out ↦ rw out (λ e. cc)
  ]

module _ {ℓ} {A : Type ℓ} where
  pub Ends-check :
      (P : A → Type 0) (b : Bool) (next : Result A)
      → (b ≡ true → Ends P next)
      → Ends P (check b >> next)
  Ends-check P true next h = h refl
  Ends-check P false next h = λ e. cc

module _ {ℓ} {A : Type ℓ} where
  -- The run returns a value that has a property.
  abbrev pub Returns : (A → Type 0) → Result A → Type 0
  Returns P (err fault) = ⊥
  Returns P (ok a) = P a

  pub Returns→ok : (P : A → Type 0) (r : Result A) → Returns P r → (a : A) × (r ≡ ok a) × P a
  Returns→ok P (err fault) h = absurd h
  Returns→ok P (ok a) h = (a, refl, h)

module _ {ℓ κ} {A : Type ℓ} {B : Type κ} where
  pub Returns-bind :
      (P : A → Type 0) (Q : B → Type 0) (r : Result A) (next : A → Result B)
      → Returns P r
      → ((a : A) → P a → Returns Q (next a))
      → Returns Q (r >>= next)
  Returns-bind P Q (err fault) next h k = absurd h
  Returns-bind P Q (ok a) next h k = k a h

  pub Returns-empty :
      (P : A → Type 0) (xs : List B) (x y : Result A)
      → (xs ≡ [] → Returns P x)
      → ((b : B) (bs : List B) → xs ≡ b ∷ bs → Returns P y)
      → Returns P (elim xs [ [] ↦ x | _ ∷ _ ↦ y ])
  Returns-empty P [] x y h k = h refl
  Returns-empty P (b ∷ bs) x y h k = k b bs refl

module _ {ℓ} {A : Type ℓ} where
  pub Returns-branch :
      (P : A → Type 0) (b : Bool) (x y : Result A)
      → (b ≡ true → Returns P x)
      → (b ≡ false → Returns P y)
      → Returns P (elim b [ true ↦ x | false ↦ y ])
  Returns-branch P true x y h k = h refl
  Returns-branch P false x y h k = k refl

  pub Returns-mono :
      (P Q : A → Type 0) (r : Result A) → Returns P r → ((a : A) → P a → Q a) → Returns Q r
  Returns-mono P Q (err fault) h k = h
  Returns-mono P Q (ok a) h k = k a h

  pub Returns→Ends : (P : A → Type 0) (r : Result A) → Returns P r → Ends P r
  Returns→Ends P (err fault) h = absurd h
  Returns→Ends P (ok a) h = h
