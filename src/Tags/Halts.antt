-- ===== src/Tags/Halts.antt =====
-- tags/TimingTags.hpp and .inl of libtatum/tatum/: no operation needs fuel.
use tatum.Prelude.{ℕ, zero, suc, none, List, Bool, true, false, not, ◌&&◌, ◌||◌, ◌==◌}
use tatum.Result.{Result, ok, ◌>>=◌}
use tatum.Result.Halts.{Halts, Halts-ok, Halts-if, Halts-bind, Halts-branch, halts_rules}
use tatum.Container.{StrongId, same_id}
use tatum.Time.{Float, valid}
use tatum.Tags
use tatum.Tags.Tag
use tatum.Tags.Tag.{
  TimingTag, TagType, DomainId, clock_launch, clock_capture, data_arrival, data_required, slack,
  unknown,
}
use tatum.Tags.{
  TimingTags, begin, end, increment_size, tag_at, shift_right, copy_n, grow_insert, insert, add_tag,
  find_from, find_matching_tag, find_data_required_with_valid_data_arrival, find_matching, set_tag,
  read_range, tags_of, all_tags, change_range, change_type, change_all, matches, change_at, replace,
}

module _ (F : Float) where
  begin-Halts : (t : TimingTags F) (type : TagType) → Halts (begin F t type)
  begin-Halts t clock_launch = search halts_rules
  begin-Halts t clock_capture = search halts_rules
  begin-Halts t data_arrival = search halts_rules
  begin-Halts t data_required = search halts_rules
  begin-Halts t slack = search halts_rules
  begin-Halts t unknown = search halts_rules

  end-Halts : (t : TimingTags F) (type : TagType) → Halts (end F t type)
  end-Halts t clock_launch = search halts_rules
  end-Halts t clock_capture = search halts_rules
  end-Halts t data_arrival = search halts_rules
  end-Halts t data_required = search halts_rules
  end-Halts t slack = search halts_rules
  end-Halts t unknown = search halts_rules

  increment_size-Halts : (t : TimingTags F) (type : TagType) → Halts (increment_size F t type)
  increment_size-Halts t clock_launch = search halts_rules
  increment_size-Halts t clock_capture = search halts_rules
  increment_size-Halts t data_arrival = search halts_rules
  increment_size-Halts t data_required = search halts_rules
  increment_size-Halts t slack = search halts_rules
  increment_size-Halts t unknown = search halts_rules

  shift_right-Halts :
      (rounds i : ℕ) (tags : List (TimingTag F)) → Halts (shift_right F rounds i tags)
  unfolding shift_right
  shift_right-Halts zero i tags = search halts_rules
  shift_right-Halts (suc rounds) i tags = search (halts_rules, shift_right-Halts rounds)

  copy_n-Halts :
      (n : ℕ) (from : List (TimingTag F)) (i : ℕ) (to : List (TimingTag F)) (j : ℕ)
      → Halts (copy_n F n from i to j)
  unfolding copy_n
  copy_n-Halts zero from i to j = search halts_rules
  copy_n-Halts (suc n) from i to j = search (halts_rules, copy_n-Halts n)

  grow_insert-Halts :
      (t : TimingTags F) (index : ℕ) (tag : TimingTag F) → Halts (grow_insert F t index tag)
  unfolding grow_insert
  grow_insert-Halts t index tag = search (halts_rules, copy_n-Halts, increment_size-Halts) depth 8

  insert-Halts : (t : TimingTags F) (index : ℕ) (tag : TimingTag F) → Halts (insert F t index tag)
  unfolding insert
  insert-Halts t index tag =
      search (halts_rules, shift_right-Halts, grow_insert-Halts, increment_size-Halts) depth 8

  pub add_tag-Halts : (t : TimingTags F) (tag : TimingTag F) → Halts (add_tag F t tag)
  unfolding add_tag
  add_tag-Halts t tag = search (halts_rules, end-Halts, insert-Halts)

  find_from-Halts :
      (tags : List (TimingTag F)) (launch capture : DomainId) (rounds i : ℕ)
      → Halts (find_from F tags launch capture rounds i)
  unfolding find_from
  find_from-Halts tags launch capture zero i = search halts_rules
  find_from-Halts tags launch capture (suc rounds) i =
      Halts-bind (tag_at F tags i) _ (search halts_rules) (λ tag.
        Halts-branch
          (matches F launch tag.launch_clock_domain && matches F capture tag.capture_clock_domain)
          (ok i) _ (Halts-ok i) (find_from-Halts tags launch capture rounds (suc i)))

  find_matching_tag-Halts :
      (t : TimingTags F) (type : TagType) (launch capture : DomainId)
      → Halts (find_matching_tag F t type launch capture)
  unfolding find_matching_tag
  find_matching_tag-Halts t type launch capture =
      search (halts_rules, begin-Halts, end-Halts, find_from-Halts)

  find_valid-Halts :
      (t : TimingTags F) (launch capture : DomainId)
      → Halts (find_data_required_with_valid_data_arrival F t launch capture)
  unfolding find_data_required_with_valid_data_arrival
  find_valid-Halts t launch capture =
      Halts-bind _ _ (find_matching_tag-Halts t data_arrival launch none) (λ arr_iter.
        Halts-bind _ _ (end-Halts t data_arrival) (λ arr_end.
          Halts-bind _ _ (end-Halts t data_required) (λ req_end.
            let found = find_matching_tag F t data_required launch capture >>= λ i. ok (true, i) in
            let found-Halts : Halts found = search (halts_rules, find_matching_tag-Halts) in
            Halts-branch (arr_iter == arr_end) (ok (false, req_end)) _ (Halts-ok (false, req_end)) (
              Halts-bind (tag_at F t.tags arr_iter) _ (search halts_rules) (λ arr.
                Halts-if (valid F arr.time) found (ok (false, req_end)) found-Halts
                  (Halts-ok (false, req_end)))))))

  find_matching-Halts :
      (t : TimingTags F) (tag : TimingTag F) (must : Bool) → Halts (find_matching F t tag must)
  unfolding find_matching
  find_matching-Halts t tag true = search (halts_rules, find_valid-Halts)
  find_matching-Halts t tag false = search (halts_rules, find_matching_tag-Halts)

  update-Halts :
      (tag : TimingTag F) (time : F.Scalar) (origin : StrongId) (base : TimingTag F)
      → Halts (Tag.update F tag time origin base)
  unfolding Tag.update
  update-Halts tag time origin base = search halts_rules

  Tag_max-Halts :
      (tag : TimingTag F) (time : F.Scalar) (origin : StrongId) (base : TimingTag F)
      → Halts (Tag.max F tag time origin base)
  unfolding Tag.max
  Tag_max-Halts tag time origin base = search (halts_rules, update-Halts)

  Tag_min-Halts :
      (tag : TimingTag F) (time : F.Scalar) (origin : StrongId) (base : TimingTag F)
      → Halts (Tag.min F tag time origin base)
  unfolding Tag.min
  Tag_min-Halts tag time origin base = search (halts_rules, update-Halts)

  change_at-Halts :
      (t : TimingTags F) (i : ℕ) (change : TimingTag F → Result (Bool × TimingTag F))
      → ((old : TimingTag F) → Halts (change old))
      → Halts (change_at F t i change)
  change_at-Halts t i change h = search halts_rules

  pub max-Halts :
      (t : TimingTags F) (time : F.Scalar) (origin : StrongId) (base : TimingTag F) (must : Bool)
      → Halts (Tags.max F t time origin base must)
  unfolding Tags.max
  max-Halts t time origin base must = Halts-bind _ _ (find_matching-Halts t base must) (λ found.
      Halts-branch found.0 _ (ok (false, t))
        (Halts-bind _ _ (end-Halts t base.type) (λ e.
          Halts-branch (found.1 == e) _ _ (add_tag-Halts t (Tag.derive F time origin base)) (
            change_at-Halts t found.1 (λ old. Tag.max F old time origin base)
              (λ old. Tag_max-Halts old time origin base))))
        (Halts-ok (false, t)))

  pub min-Halts :
      (t : TimingTags F) (time : F.Scalar) (origin : StrongId) (base : TimingTag F) (must : Bool)
      → Halts (Tags.min F t time origin base must)
  unfolding Tags.min
  min-Halts t time origin base must = Halts-bind _ _ (find_matching-Halts t base must) (λ found.
      Halts-branch found.0 _ (ok (false, t))
        (Halts-bind _ _ (end-Halts t base.type) (λ e.
          Halts-branch (found.1 == e) _ _ (add_tag-Halts t (Tag.derive F time origin base)) (
            change_at-Halts t found.1 (λ old. Tag.min F old time origin base)
              (λ old. Tag_min-Halts old time origin base))))
        (Halts-ok (false, t)))

  pub set_tag-Halts : (t : TimingTags F) (tag : TimingTag F) → Halts (set_tag F t tag)
  unfolding set_tag
  set_tag-Halts t tag = Halts-bind _ _ (find_matching-Halts t tag false) (λ found.
      Halts-bind _ _ (end-Halts t tag.type) (λ e.
        Halts-branch (found.1 == e) _ _ (add_tag-Halts t tag) (
          change_at-Halts t found.1 (replace F tag) (λ old.
            Halts-if (not (F.eq old.time tag.time) || not (same_id old.origin_node tag.origin_node))
              (ok (true, tag)) (ok (false, old)) (Halts-ok _) (Halts-ok _)))))

  read_range-Halts : (tags : List (TimingTag F)) (rounds i : ℕ) → Halts (read_range F tags rounds i)
  unfolding read_range
  read_range-Halts tags zero i = search halts_rules
  read_range-Halts tags (suc rounds) i = search (halts_rules, read_range-Halts tags rounds)

  pub tags_of-Halts : (t : TimingTags F) (type : TagType) → Halts (tags_of F t type)
  unfolding tags_of
  tags_of-Halts t type = search (halts_rules, begin-Halts, end-Halts, read_range-Halts)

  pub all_tags-Halts : (t : TimingTags F) → Halts (all_tags F t)
  unfolding all_tags
  all_tags-Halts t = search (halts_rules, read_range-Halts)

  change_range-Halts :
      (change : TimingTag F → TimingTag F) (rounds i : ℕ) (tags : List (TimingTag F))
      → Halts (change_range F change rounds i tags)
  unfolding change_range
  change_range-Halts change zero i tags = search halts_rules
  change_range-Halts change (suc rounds) i tags =
      search (halts_rules, change_range-Halts change rounds)

  pub change_type-Halts :
      (change : TimingTag F → TimingTag F) (type : TagType) (t : TimingTags F)
      → Halts (change_type F change type t)
  unfolding change_type
  change_type-Halts change type t = search (halts_rules, begin-Halts, end-Halts, change_range-Halts)

  pub change_all-Halts :
      (change : TimingTag F → TimingTag F) (t : TimingTags F) → Halts (change_all F change t)
  unfolding change_all
  change_all-Halts change t = search (halts_rules, change_range-Halts)
