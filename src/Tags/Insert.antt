-- ===== src/Tags/Insert.antt =====
-- The functions `insert` and `grow_insert` of tags/TimingTags.inl, against lists.
use mathlib.Core.List.{append-nil}
use tatum.Prelude.{
  ℕ, suc, ◌+◌, ◌-◌, ◌*◌, ◌%◌, ◌≤◌, ◌<◌, ◌≡◌, refl, List, [], ◌∷◌, ◌++◌, arith, length, replicate,
  ap, ◌∙◌, sym, length-append, length-push, replicate-add, length-replicate, ◌==◌, if◌then◌else◌,
  true, false, ◌||◌, leb, shift,
}
use tatum.Result.{ok}
use tatum.Time.{Float}
use tatum.Tags.Tag.{TimingTag, default_tag}
use tatum.Tags.{TimingTags, copy_n, insert, grow_insert, increment_size}
use tatum.Tags.Array.{shift_right_lem, copy_n_lem, store_at}

-- The capacity that `grow_insert` allocates.
abbrev pub grown : ℕ → ℕ
grown c = if c == 0 then 1 else 2 * c

module _ {F : Float} where
  blank : ℕ → List (TimingTag F)
  blank n = replicate n (default_tag F)

  blank_split :
      (a b n : ℕ)
      → a + suc b ≤ n
      → replicate n (default_tag F)
        ≡ blank a ++ default_tag F ∷ (blank b ++ blank (n - (a + suc b)))
  unfolding blank
  blank_split a b n h =
      let d = default_tag F in
      let e : n ≡ a + suc (b + (n - (a + suc b))) = omega arith in
      ap (λ k. replicate k d) e
      ∙ replicate-add a (suc (b + (n - (a + suc b)))) d
      ∙ ap (λ l. replicate a d ++ d ∷ l) (replicate-add b (n - (a + suc b)) d)

  -- The first copy, the new tag, and the second copy, over any array that is long enough.
  copy_before :
      (xs ys post b : List (TimingTag F))
      → length xs ≡ length b
      → copy_n F (length xs) (xs ++ ys) 0 (b ++ post) 0 ≡ ok (xs ++ post)
  copy_before xs ys post b e = copy_n_lem [] xs ys [] b post 0 0 refl refl e

  copy_after :
      (xs ys rest b : List (TimingTag F)) (tag : TimingTag F)
      → length ys ≡ length b
      → copy_n F (length ys) (xs ++ ys) (length xs) (xs ++ tag ∷ (b ++ rest)) (length xs + 1)
        ≡ ok (xs ++ tag ∷ (ys ++ rest))
  copy_after xs ys rest b tag e =
      let copied =
        copy_n_lem xs ys [] (xs ++ tag ∷ []) b rest (length xs) (length xs + 1) refl
          (omega (arith, length-push xs tag)) e in
      rw (shift xs tag (b ++ rest), shift xs tag (ys ++ rest)) (rw (append-nil ys) at copied)

  grow_insert_lem :
      (t : TimingTags F) (xs ys : List (TimingTag F)) (tag : TimingTag F)
      → t.tags ≡ xs ++ ys
      → t.size ≡ length xs + length ys
      → t.capacity ≡ t.size
      → t.capacity < 32768
      → (spare : List (TimingTag F)) × (grow_insert F t (length xs) tag
          ≡ increment_size F
              (record t { capacity = grown t.capacity; tags = xs ++ tag ∷ (ys ++ spare) })
              tag.type)
        × (length (xs ++ tag ∷ (ys ++ spare)) ≡ grown t.capacity)
  unfolding grow_insert blank
  grow_insert_lem t xs ys tag layout size full small =
      let n = grown t.capacity in
      let a = length xs in
      let b = length ys in
      let rest = blank (n - (a + suc b)) in
      let d = default_tag F in
      let width : n % 65536 ≡ n = ground arith in
      let fits : a + suc b ≤ n = ground arith in
      let left : t.size - a ≡ b = omega arith in
      (
        rest,
        rw
            (
              width,
              blank_split a b n fits,
              layout,
              left,
              copy_before xs ys (d ∷ (blank b ++ rest)) (blank a) (sym (length-replicate a d)),
              store_at xs (blank b ++ rest) d tag a refl,
              copy_after xs ys rest (blank b) tag (sym (length-replicate b d)),
            )
            refl,
        omega (
          arith,
          length-append xs (tag ∷ (ys ++ rest)),
          length-append ys rest,
          length-replicate (n - (a + suc b)) d,
        ),
      )

  -- `insert` at a position within the tags, with room for the counters: the tag stands there, the
  -- tags before and after it are kept in order, and the capacity is that of the array.
  pub insert_lem :
      (t : TimingTags F) (xs ys spare : List (TimingTag F)) (tag : TimingTag F)
      → t.tags ≡ xs ++ (ys ++ spare)
      → t.size ≡ length xs + length ys
      → t.capacity ≡ length t.tags
      → t.capacity < 32768
      → (cap : ℕ) × (spare' : List (TimingTag F)) × (insert F t (length xs) tag
          ≡ increment_size F
              (record t { capacity = cap; tags = xs ++ tag ∷ (ys ++ spare') })
              tag.type)
        × (cap ≡ length (xs ++ tag ∷ (ys ++ spare')))
  unfolding insert
  insert_lem t xs ys [] tag layout size full small =
      let layout' : t.tags ≡ xs ++ ys = layout ∙ ap (◌++◌ xs) (append-nil ys) in
      let exact : t.capacity ≡ t.size = omega (arith, ap length layout', length-append xs ys) in
      let (spare', run, len) = grow_insert_lem t xs ys tag layout' size exact small in
      let inside : leb (length xs) t.size ≡ true = ground arith in
      let at_end : (t.capacity == 0 || t.capacity == t.size) ≡ true = ground arith in
      (grown t.capacity, spare', rw (inside, at_end) run, sym len)
  insert_lem t xs ys (z ∷ spare) tag layout size full small =
      let room : t.capacity ≡ suc (t.size + length spare) = omega (
        arith,
        ap length layout,
        length-append xs (ys ++ z ∷ spare),
        length-append ys (z ∷ spare),
      ) in
      let inside : leb (length xs) t.size ≡ true = ground arith in
      let at_end : (t.capacity == 0 || t.capacity == t.size) ≡ false = ground arith in
      let fits : leb (t.size + 1) t.capacity ≡ true = ground arith in
      let left : t.size - length xs ≡ length ys = omega arith in
      let (w, shifted) = shift_right_lem xs ys spare z t.size size in
      (
        t.capacity,
        spare,
        rw
            (
              inside,
              at_end,
              fits,
              left,
              layout,
              shifted,
              store_at xs (ys ++ spare) w tag (length xs) refl,
            )
            refl,
        omega (arith, length-append xs (tag ∷ (ys ++ spare)), length-append ys spare),
      )
