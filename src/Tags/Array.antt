-- ===== src/Tags/Array.antt =====
-- The copies and shifts in the array of tags: what they leave where.
use tatum.Prelude.{
  ℕ, suc, ◌+◌, ◌-◌, ◌<◌, ◌≡◌, refl, List, [], ◌∷◌, ◌++◌, some, arith, length, ap, ◌∙◌, sym,
  length-append, length-push, set-append, get-append, shift, lt→ltb,
}
use mathlib.Core.List.{append_assoc}
use tatum.Result.{ok}
use tatum.Container.{store}
use tatum.Time.{Float}
use tatum.Tags.Tag.{TimingTag}
use tatum.Tags.{shift_right, copy_n, tag_at}

-- A list put in reverse before another.
onto {ℓ} : {A : Type ℓ} → List A → List A → List A
onto [] zs = zs
onto (r ∷ rs) zs = onto rs (r ∷ zs)

onto-append {ℓ} : {A : Type ℓ} (rs zs : List A) → onto rs zs ≡ onto rs [] ++ zs
unfolding onto
onto-append [] zs = refl
onto-append (r ∷ rs) zs =
    rw (onto-append rs (r ∷ zs), onto-append rs (r ∷ [])) (shift (onto rs []) r zs)

onto-onto {ℓ} : {A : Type ℓ} (xs ys zs : List A) → onto (onto xs ys) zs ≡ onto ys (xs ++ zs)
unfolding onto
onto-onto [] ys zs = refl
onto-onto (x ∷ xs) ys zs = onto-onto xs (x ∷ ys) zs

length-onto {ℓ} : {A : Type ℓ} (xs ys : List A) → length (onto xs ys) ≡ length xs + length ys
unfolding onto
length-onto [] ys = omega arith
length-onto (x ∷ xs) ys = omega (arith, length-onto xs (x ∷ ys))

module _ {F : Float} where
  pub store_at :
      (pre post : List (TimingTag F)) (x v : TimingTag F) (k : ℕ)
      → k ≡ length pre
      → store (pre ++ x ∷ post) (some k) v ≡ ok (pre ++ v ∷ post)
  store_at pre post x v k e =
      let lt : k < length (pre ++ x ∷ post) = omega (arith, length-append pre (x ∷ post)) in
      rw (lt→ltb k (length (pre ++ x ∷ post)) lt, e) (ap ok (set-append pre post x v))

  pub read_at :
      (pre post : List (TimingTag F)) (x : TimingTag F) (k : ℕ)
      → k ≡ length pre
      → tag_at F (pre ++ x ∷ post) k ≡ ok x
  read_at pre post x k e = rw (e, get-append pre post x) refl

  split : (pre rs zs : List (TimingTag F)) → pre ++ onto rs zs ≡ (pre ++ onto rs []) ++ zs
  split pre rs zs = ap (◌++◌ pre) (onto-append rs zs) ∙ sym (append_assoc pre (onto rs []) zs)

  length-split : (pre rs : List (TimingTag F)) → length (pre ++ onto rs []) ≡ length pre + length rs
  length-split pre rs = omega (arith, length-append pre (onto rs []), length-onto rs [])

  tag_at-onto :
      (pre rs zs : List (TimingTag F)) (r : TimingTag F) (k : ℕ)
      → k ≡ length pre + length rs
      → tag_at F (pre ++ onto rs (r ∷ zs)) k ≡ ok r
  tag_at-onto pre rs zs r k e =
      rw (split pre rs (r ∷ zs))
        (read_at (pre ++ onto rs []) zs r k (omega (arith, length-split pre rs)))

  store-onto :
      (pre rs post : List (TimingTag F)) (r z v : TimingTag F) (k : ℕ)
      → k ≡ suc (length pre + length rs)
      → store (pre ++ onto rs (r ∷ z ∷ post)) (some k) v ≡ ok (pre ++ onto rs (r ∷ v ∷ post))
  store-onto pre rs post r z v k e =
      let front = pre ++ onto rs [] in
      rw
        (
          split pre rs (r ∷ z ∷ post),
          split pre rs (r ∷ v ∷ post),
          shift front r (z ∷ post),
          shift front r (v ∷ post),
        )
        (store_at (front ++ r ∷ []) post z v k
          (omega (arith, length-split pre rs, length-push front r)))

  -- The shift over the reversed list `rs`, which starts with the last tag.
  shift_right-onto :
      (pre rs post : List (TimingTag F)) (z : TimingTag F) (k : ℕ)
      → k ≡ length pre + length rs
      → (w : TimingTag F) × (shift_right F (length rs) k (pre ++ onto rs (z ∷ post))
          ≡ ok (pre ++ w ∷ onto rs post))
  unfolding shift_right onto
  shift_right-onto pre [] post z k e = (z, refl)
  shift_right-onto pre (r ∷ rs) post z k e =
      let (w, run) = shift_right-onto pre rs (r ∷ post) r (k - 1) (omega arith) in
      (
        w,
        rw
            (
              tag_at-onto pre rs (z ∷ post) r (k - 1) (omega arith),
              store-onto pre rs post r z r k (omega arith),
            )
            run,
      )

  -- Every tag of `mid` moves one to the right, over the free entry `z`.
  pub shift_right_lem :
      (pre mid post : List (TimingTag F)) (z : TimingTag F) (k : ℕ)
      → k ≡ length pre + length mid
      → (w : TimingTag F) × (shift_right F (length mid) k (pre ++ (mid ++ z ∷ post))
          ≡ ok (pre ++ w ∷ (mid ++ post)))
  unfolding onto
  shift_right_lem pre mid post z k e =
      let rs = onto mid [] in
      let len : length rs ≡ length mid = omega (arith, length-onto mid []) in
      let (w, run) = shift_right-onto pre rs post z k (omega arith) in
      (w, rw (len, onto-onto mid [] (z ∷ post), onto-onto mid [] post) at run)

  -- A block of tags is copied over a block of the same length.
  pub copy_n_lem :
      (p mid q a b c : List (TimingTag F)) (i j : ℕ)
      → i ≡ length p
      → j ≡ length a
      → length mid ≡ length b
      → copy_n F (length mid) (p ++ (mid ++ q)) i (a ++ (b ++ c)) j ≡ ok (a ++ (mid ++ c))
  unfolding copy_n
  copy_n_lem p [] q a [] c i j ei ej e = refl
  copy_n_lem p [] q a (y ∷ b) c i j ei ej e = absurd (omega arith)
  copy_n_lem p (x ∷ mid) q a [] c i j ei ej e = absurd (omega arith)
  copy_n_lem p (x ∷ mid) q a (y ∷ b) c i j ei ej e =
      rw
        (
          read_at p (mid ++ q) x i ei,
          store_at a (b ++ c) y x j ej,
          shift p x (mid ++ q),
          shift a x (b ++ c),
          shift a x (mid ++ c),
        )
        (copy_n_lem (p ++ x ∷ []) mid q (a ++ x ∷ []) b c (suc i) (suc j)
          (rw (length-push p x) (ap suc ei)) (rw (length-push a x) (ap suc ej)) (omega arith))
