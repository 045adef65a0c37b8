-- ===== src/Tags/Tag/Update.antt =====
-- What `max` and `min` do to a tag.
use tatum.Prelude.{◌≡◌, refl, Bool, true, false, not, ◌||◌, ◌⊎◌, inl, inr, sym, ◌∙◌, Bool-cases}
use tatum.Result.{ok}
use tatum.Container.{StrongId}
use tatum.Container.Laws.{same_id_refl}
use tatum.Time.{Float, valid, gt}
use tatum.Tags.Tag.{TimingTag, same_type, is_const_gen_tag, swallow, update, max, min}

second-true : (a b : Bool) → a ≡ true → (not a || b) ≡ true → b ≡ true
second-true true b h k = k
second-true false b h k = absurd cc

second-false : (a b : Bool) → (not a || b) ≡ false → b ≡ false
second-false true b k = k
second-false false b k = absurd cc

true≢false : ¬ (true ≡ false)
true≢false h = cc

module _ {F : Float} where
  -- The tags have one type, and the domains of the first are those of the second, unless the first is
  -- that of a constant generator.
  pub record AreCompatible (tag base_tag : TimingTag F) : Type 0 where
    pub types : same_type tag.type base_tag.type ≡ true
    pub domains :
        (is_const_gen_tag F tag ≡ true)
        ⊎ ((tag.launch_clock_domain ≡ base_tag.launch_clock_domain)
            × (tag.capture_clock_domain ≡ base_tag.capture_clock_domain))

  module _ (tag base_tag : TimingTag F) (t : F.Scalar) (origin : StrongId)
      (h : AreCompatible tag base_tag) where
    -- The assertions of `update` hold.
    update_lem :
        update F tag t origin base_tag
        ≡ ok (record (swallow F tag base_tag) { time = t; origin_node = origin })
    unfolding update
    update_lem = elim (Bool-cases (is_const_gen_tag F tag)) [
      | inl c ↦
          rw
            (
              h.types,
              c,
              same_id_refl base_tag.launch_clock_domain,
              same_id_refl base_tag.capture_clock_domain,
            )
            refl
      | inr c ↦ elim h.domains [
        | inl d ↦ absurd (true≢false (sym d ∙ c))
        | inr (l, k) ↦
            rw
              (
                h.types,
                c,
                l,
                k,
                same_id_refl base_tag.launch_clock_domain,
                same_id_refl base_tag.capture_clock_domain,
              )
              refl
      ]
    ]

    asymmetric : (a b : F.Scalar) → F.lt a b ≡ true → F.lt b a ≡ false
    asymmetric a b ab = elim (Bool-cases (F.lt b a)) [
      | inl ba ↦ absurd (true≢false (sym (F.lt_trans a b a ab ba) ∙ F.lt_irrefl a))
      | inr apart ↦ apart
    ]

    -- `max` of a tag with a time, under the tag that the time comes from, passes its assertions when the
    -- two tags have one type and the same domains, or the first is a constant generator's. The
    -- time of the result is not less than the new one, nor, if that was valid, than the old
    -- one, and it is one of the two.
    pub max-upper :
        (m : Bool) × (result : TimingTag F) × (max F tag t origin base_tag ≡ ok (m, result))
        × (F.lt result.time t ≡ false)
        × (valid F tag.time ≡ true → F.lt result.time tag.time ≡ false)
        × ((result.time ≡ tag.time) ⊎ (result.time ≡ t))
    unfolding max
    max-upper = elim (Bool-cases (not (valid F tag.time) || gt F t tag.time)) [
      | inl raised ↦ (
        true,
        record (swallow F tag base_tag) { time = t; origin_node = origin },
        rw (raised, update_lem) refl,
        F.lt_irrefl t,
        λ v. asymmetric tag.time t (second-true (valid F tag.time) (F.lt tag.time t) v raised),
        inr refl,
      )
      | inr kept ↦ (
        false,
        tag,
        rw kept refl,
        second-false (valid F tag.time) (F.lt tag.time t) kept,
        λ v. F.lt_irrefl tag.time,
        inl refl,
      )
    ]

    -- `min` of a tag with a time, under the tag that the time comes from, passes its assertions when the
    -- two tags have one type and the same domains, or the first is a constant generator's. The time
    -- of the result is not greater than the new one, nor, if that was valid, than the old one,
    -- and it is one of the two.
    pub min-lower :
        (m : Bool) × (result : TimingTag F) × (min F tag t origin base_tag ≡ ok (m, result))
        × (F.lt t result.time ≡ false)
        × (valid F tag.time ≡ true → F.lt tag.time result.time ≡ false)
        × ((result.time ≡ tag.time) ⊎ (result.time ≡ t))
    unfolding min
    min-lower = elim (Bool-cases (not (valid F tag.time) || F.lt t tag.time)) [
      | inl lowered ↦ (
        true,
        record (swallow F tag base_tag) { time = t; origin_node = origin },
        rw (lowered, update_lem) refl,
        F.lt_irrefl t,
        λ v. asymmetric t tag.time (second-true (valid F tag.time) (F.lt t tag.time) v lowered),
        inr refl,
      )
      | inr kept ↦ (
        false,
        tag,
        rw kept refl,
        second-false (valid F tag.time) (F.lt t tag.time) kept,
        λ v. F.lt_irrefl tag.time,
        inl refl,
      )
    ]
