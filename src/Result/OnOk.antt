-- ===== src/Result/OnOk.antt =====
-- What holds of the value of a run, if the program does not stop before.
use tatum.Prelude.{Bool, true, false, List, [], ◌∷◌, if◌then◌else◌}
use tatum.Result.{Result, ok, err, check, for_each, ◌>>=◌, ◌>>◌}

module _ {ℓ} {A : Type ℓ} where
  abbrev pub OnOk : (A → Type 0) → Result A → Type 0
  OnOk P (err fault) = Unit {0}
  OnOk P (ok a) = P a

  pub OnOk-check :
      (P : A → Type 0) (b : Bool) (next : Result A) → OnOk P next → OnOk P (check b >> next)
  OnOk-check P true next h = h
  OnOk-check P false next h = tt

  pub OnOk-if :
      (P : A → Type 0) (b : Bool) (x y : Result A)
      → OnOk P x
      → OnOk P y
      → OnOk P (if b then x else y)
  OnOk-if P true x y h k = h
  OnOk-if P false x y h k = k

  pub OnOk-branch :
      (P : A → Type 0) (b : Bool) (x y : Result A)
      → OnOk P x
      → OnOk P y
      → OnOk P (elim b [ true ↦ x | false ↦ y ])
  OnOk-branch P true x y h k = h
  OnOk-branch P false x y h k = k

module _ {ℓ κ} {A : Type ℓ} {B : Type κ} where
  pub OnOk-bind :
      (P : A → Type 0) (Q : B → Type 0) (r : Result A) (next : A → Result B)
      → OnOk P r
      → ((a : A) → P a → OnOk Q (next a))
      → OnOk Q (r >>= next)
  OnOk-bind P Q (err fault) next h k = tt
  OnOk-bind P Q (ok a) next h k = k a h

  -- Whatever has been computed before.
  pub OnOk-after :
      (Q : B → Type 0) (r : Result A) (next : A → Result B)
      → ((a : A) → OnOk Q (next a))
      → OnOk Q (r >>= next)
  OnOk-after Q (err fault) next k = tt
  OnOk-after Q (ok a) next k = k a

  pub OnOk-empty :
      (P : A → Type 0) (xs : List B) (x : Result A) (y : B → List B → Result A)
      → OnOk P x
      → ((b : B) (bs : List B) → OnOk P (y b bs))
      → OnOk P (elim xs [ [] ↦ x | b ∷ bs ↦ y b bs ])
  OnOk-empty P [] x y h k = h
  OnOk-empty P (b ∷ bs) x y h k = k b bs

module _ {ℓ κ} {A : Type ℓ} {B : Type κ} where
  pub OnOk-for_each :
      (P : B → Type 0) (xs : List A) (s : B) (body : A → B → Result B)
      → P s
      → ((x : A) (t : B) → P t → OnOk P (body x t))
      → OnOk P (for_each xs s body)
  unfolding for_each
  OnOk-for_each P [] s body h k = h
  OnOk-for_each P (x ∷ xs) s body h k =
      OnOk-bind P P (body x s) (λ t. for_each xs t body) (k x s h)
        (λ t p. OnOk-for_each P xs t body p k)
