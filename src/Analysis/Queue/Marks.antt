-- ===== src/Analysis/Queue/Marks.antt =====
-- The bitsets of libtatum/tatum/graph_walkers/SerialIncrWalker.hpp, and how often a list holds an id.
use tatum.Prelude.{
  ℕ, zero, suc, ◌+◌, ◌≡◌, refl, ap, Bool, true, false, ◌||◌, none, some, List, [], ◌∷◌, arith,
  length, get_or, ltb, if◌then◌else◌, get_or-set, get_or_out, ◌<◌, ◌≤◌, set, Bool-cases, inl, inr,
  ltb→lt, ◌∙◌,
}
use tatum.Result.{ok}
use tatum.Container.{StrongId, same_id, push_back, resize, insert}
use tatum.Analysis.Queue.{is_marked, mark}

module _ {ℓ} {V : Type ℓ} where
  pub length-resize : (xs : List V) (n : ℕ) (d : V) → length (resize xs n d) ≡ n
  unfolding resize
  length-resize [] zero d = refl
  length-resize [] (suc n) d = ap suc (length-resize [] n d)
  length-resize (x ∷ xs) zero d = refl
  length-resize (x ∷ xs) (suc n) d = ap suc (length-resize xs n d)

  pub get_or-resize :
      (xs : List V) (n j : ℕ) (d : V)
      → get_or (resize xs n d) j d ≡ (if ltb j n then get_or xs j d else d)
  unfolding resize
  get_or-resize [] zero j d = ground arith
  get_or-resize [] (suc n) zero d = ground arith
  get_or-resize [] (suc n) (suc j) d = ground (arith, get_or-resize [] n j d)
  get_or-resize (x ∷ xs) zero j d = ground arith
  get_or-resize (x ∷ xs) (suc n) zero d = ground arith
  get_or-resize (x ∷ xs) (suc n) (suc j) d = ground (arith, get_or-resize xs n j d)

set-is_marked :
    (bits : List Bool) (i : ℕ) (m : StrongId)
    → i < length bits
    → is_marked (set bits i true) m ≡ (same_id (some i) m || is_marked bits m)
set-is_marked bits i none h = refl
set-is_marked bits i (some j) h = rw (get_or-set bits i j true false h) ground arith

resize-is_marked :
    (bits : List Bool) (i : ℕ) (m : StrongId)
    → length bits ≤ i
    → is_marked (resize bits (suc i) false) m ≡ is_marked bits m
resize-is_marked bits i none h = refl
resize-is_marked bits i (some j) h =
    ground (arith, get_or-resize bits (suc i) j false, get_or_out bits j false)

-- An id that is valid can be marked, which marks no other.
pub mark_lem :
    (bits : List Bool) (i : ℕ)
    → (bits' : List Bool) × (mark bits (some i) ≡ ok bits')
      × ((m : StrongId) → is_marked bits' m ≡ (same_id (some i) m || is_marked bits m))
unfolding insert
mark_lem bits i = elim (Bool-cases (ltb i (length bits))) [
  | inl in_range ↦ (
    set bits i true,
    rw in_range refl,
    λ m. set-is_marked bits i m (ltb→lt i (length bits) in_range),
  )
  | inr out ↦
      let grown = resize bits (suc i) false in
      (
        set grown i true,
        rw out refl,
        λ m.
            set-is_marked grown i m (omega (arith, length-resize bits (suc i) false))
            ∙ ap (◌||◌ (same_id (some i) m)) (resize-is_marked bits i m (ground (arith, out))),
      )
]

abbrev pub count : StrongId → List StrongId → ℕ
count x [] = 0
count x (y ∷ ys) = if same_id y x then suc (count x ys) else count x ys

pub count-push :
    (x y : StrongId) (ys : List StrongId)
    → count x (push_back ys y) ≡ count x ys + (if same_id y x then 1 else 0)
count-push x y [] = ground arith
count-push x y (z ∷ ys) = ground (arith, count-push x y ys)
