-- ===== src/Tags/Overflow.antt =====
-- The widths of the counters in tags/TimingTags.inl: one more tag of a type than the counter can tell.
use mathlib.Core.List.{append_assoc}
use tatum.Prelude.{
  ◌+◌, ◌-◌, ◌%◌, ◌<◌, ◌≡◌, refl, true, [], ◌∷◌, ◌++◌, arith, length, length-append, ap, sym, ◌∙◌,
}
use tatum.Result.{ok}
use tatum.Time.{Float}
use tatum.Tags.Tag.{TimingTag, data_arrival}
use tatum.Tags.{TimingTags, add_tag, increment_size, end, tags_of, read_range}
use tatum.Tags.Insert.{insert_lem}
use tatum.Tags.Segments.{
  Segments, contents, segment, before, after, Represents, contents_split, end_lem,
}

module _ {F : Float} where
  -- When a node's array, counters and widths hold five lists of tags, of which 255 are data arrivals, and the
  -- array can still grow, add_tag of another data arrival returns true, but the counter of the data arrivals
  -- is then 0: an iteration over the data arrivals reads none of the 256 tags.
  pub add_tag-wraps :
      (t : TimingTags F) (s : Segments F) (tag : TimingTag F)
      → Represents t s
      → length s.arrival ≡ 255
      → t.capacity < 32768
      → tag.type ≡ data_arrival
      → (t' : TimingTags F) × (add_tag F t tag ≡ ok (true, t'))
        × (tags_of F t' data_arrival ≡ ok [])
  unfolding add_tag tags_of read_range
  add_tag-wraps t s tag h full small ty =
      let xs = before s data_arrival ++ segment s data_arrival in
      let ys = after s data_arrival in
      let parts : contents s ≡ xs ++ ys =
        contents_split s data_arrival
        ∙ sym (append_assoc (before s data_arrival) (segment s data_arrival) ys) in
      let layout : t.tags ≡ xs ++ (ys ++ h.spare) =
        h.layout ∙ ap (λ l. l ++ h.spare) parts ∙ append_assoc xs ys h.spare in
      let size : t.size ≡ length xs + length ys =
        omega (arith, h.size_eq, ap length parts, length-append xs ys) in
      let (cap, spare', run, len) =
        insert_lem t xs ys h.spare tag layout size h.capacity_eq small in
      let place : end F t tag.type ≡ ok (length xs) =
        ap (end F t) ty
        ∙ end_lem t s h data_arrival (λ e. cc)
        ∙ ap ok (sym (length-append (before s data_arrival) (segment s data_arrival))) in
      let wrapped : (t.num_data_arrival_tags + 1) % 256 ≡ 0 = ground (arith, h.arrival_eq, full) in
      let none_left : t.num_clock_launch_tags
            + t.num_clock_capture_tags
            + 0
            - (t.num_clock_launch_tags + t.num_clock_capture_tags)
          ≡ 0 =
        omega arith in
      let counted : TimingTags F = record t {
        capacity = cap;
        tags = xs ++ tag ∷ (ys ++ spare');
        size = (t.size + 1) % 65536;
        num_data_arrival_tags = (t.num_data_arrival_tags + 1) % 256;
      } in
      let stored : TimingTags F = record t { capacity = cap; tags = xs ++ tag ∷ (ys ++ spare') } in
      let count : increment_size F stored tag.type ≡ ok counted = ap (increment_size F stored) ty in
      (counted, rw (place, run, count) refl, rw (wrapped, none_left) refl)
