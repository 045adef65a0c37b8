-- ===== src/Tags.antt =====
-- libtatum/tatum/tags/TimingTags.hpp and TimingTags.inl: the tags of a node. The array `tags_` is the
-- list `tags` of its `capacity` entries, and an iterator is its distance from the array's start.
-- `size_` and `capacity_` are 16 bits wide, and the counters of the types are 8 bits wide.
pub mod Tag
pub mod Array
pub mod Insert
pub mod Segments
pub mod Find
pub mod Overflow
pub mod Add
pub mod Halts
pub mod Examples
use tatum.Prelude.{
  ℕ, zero, suc, ◌+◌, ◌-◌, ◌*◌, ◌%◌, Bool, true, false, not, ◌&&◌, ◌||◌, some, none, List, [], ◌∷◌,
  length, get_elem?, replicate, leb, ◌==◌, if◌then◌else◌,
}
use tatum.Result.{Result, ok, err, assertion, out_of_range, check, or_fault, ◌>>=◌, ◌>>◌}
use tatum.Container.{StrongId, is_valid, same_id, store}
use tatum.Time.{Float, valid}
use Tag.{
  TagType, clock_launch, clock_capture, data_arrival, data_required, slack, unknown, same_type,
  TimingTag, DomainId, default_tag, derive,
}
use Tag

pub record TimingTags (F : Float) : Type 0 where
  pub size : ℕ
  pub capacity : ℕ
  pub num_clock_launch_tags : ℕ
  pub num_clock_capture_tags : ℕ
  pub num_data_arrival_tags : ℕ
  pub num_data_required_tags : ℕ
  pub tags : List (TimingTag F)

module _ (F : Float) where
  -- TimingTags(num_reserve)
  abbrev pub make : ℕ → TimingTags F
  make num_reserve = record {
    size = 0;
    capacity = num_reserve;
    num_clock_launch_tags = 0;
    num_clock_capture_tags = 0;
    num_data_arrival_tags = 0;
    num_data_required_tags = 0;
    tags = replicate num_reserve (default_tag F);
  }

  -- begin(type); the `default` of the switch asserts false
  abbrev pub begin : TimingTags F → TagType → Result ℕ
  begin t clock_launch = ok 0
  begin t clock_capture = ok t.num_clock_launch_tags
  begin t data_arrival = ok (t.num_clock_launch_tags + t.num_clock_capture_tags)
  begin t data_required =
      ok (t.num_clock_launch_tags + t.num_clock_capture_tags + t.num_data_arrival_tags)
  begin t slack = ok (
      t.num_clock_launch_tags + t.num_clock_capture_tags + t.num_data_arrival_tags
      + t.num_data_required_tags)
  begin t unknown = err assertion

  -- end(type)
  abbrev pub end : TimingTags F → TagType → Result ℕ
  end t clock_launch = begin t clock_capture
  end t clock_capture = begin t data_arrival
  end t data_arrival = begin t data_required
  end t data_required = begin t slack
  end t slack = ok t.size
  end t unknown = err assertion

  -- increment_size(type), with the widths of the counters
  abbrev pub increment_size : TimingTags F → TagType → Result (TimingTags F)
  increment_size t clock_launch = ok (record t {
    size = (t.size + 1) % 65536;
    num_clock_launch_tags = (t.num_clock_launch_tags + 1) % 256;
  })
  increment_size t clock_capture = ok (record t {
    size = (t.size + 1) % 65536;
    num_clock_capture_tags = (t.num_clock_capture_tags + 1) % 256;
  })
  increment_size t data_arrival = ok (record t {
    size = (t.size + 1) % 65536;
    num_data_arrival_tags = (t.num_data_arrival_tags + 1) % 256;
  })
  increment_size t data_required = ok (record t {
    size = (t.size + 1) % 65536;
    num_data_required_tags = (t.num_data_required_tags + 1) % 256;
  })
  increment_size t slack = ok (record t { size = (t.size + 1) % 65536 })
  increment_size t unknown = err assertion

  -- A read of the array.
  abbrev pub tag_at : List (TimingTag F) → ℕ → Result (TimingTag F)
  tag_at tags i = or_fault (get_elem? tags i) out_of_range

  -- for(i = size; i != index; --i) tags_[i] = tags_[i - 1], with the rounds that are left.
  unfoldable pub shift_right : ℕ → ℕ → List (TimingTag F) → Result (List (TimingTag F))
  shift_right zero i tags = ok tags
  shift_right (suc rounds) i tags = do
    v ← tag_at tags (i - 1)
    tags' ← store tags (some i) v
    shift_right rounds (i - 1) tags'

  -- std::copy_n from position `i` of one array to position `j` of another.
  pub copy_n : ℕ → List (TimingTag F) → ℕ → List (TimingTag F) → ℕ → Result (List (TimingTag F))
  copy_n zero from i to j = ok to
  copy_n (suc n) from i to j = do
    v ← tag_at from i
    to' ← store to (some j) v
    copy_n n from (suc i) to' (suc j)

  -- The new array is made with the new capacity in full; the member keeps its low 16 bits.
  pub grow_insert : TimingTags F → ℕ → TimingTag F → Result (TimingTags F)
  unfolding copy_n
  grow_insert t index tag = do
    let new_capacity = if t.capacity == 0 then 1 else 2 * t.capacity
    let new_tags = replicate (new_capacity % 65536) (default_tag F)
    before ← copy_n index t.tags 0 new_tags 0
    here ← store before (some index) tag
    after ← copy_n (t.size - index) t.tags index here (index + 1)
    increment_size (record t { capacity = new_capacity % 65536; tags = after }) tag.type

  pub insert : TimingTags F → ℕ → TimingTag F → Result (TimingTags F)
  insert t index tag = do
    check (leb index t.size)
    if t.capacity == 0 || t.capacity == t.size then grow_insert t index tag else do
      check (leb (t.size + 1) t.capacity)
      shifted ← shift_right (t.size - index) t.size t.tags
      tags' ← store shifted (some index) tag
      increment_size (record t { tags = tags' }) tag.type

  pub add_tag : TimingTags F → TimingTag F → Result (Bool × TimingTags F)
  unfolding insert
  add_tag t tag = do iter ← end t tag.type; t' ← insert t iter tag; ok (true, t')

  -- One of the domains is a wildcard, or the two are the same.
  abbrev pub matches : DomainId → DomainId → Bool
  matches domain tag_domain =
      not (is_valid domain) || not (is_valid tag_domain) || same_id domain tag_domain

  -- The first position from `i` on, within so many rounds, of a tag that matches both domains.
  pub find_from : List (TimingTag F) → DomainId → DomainId → ℕ → ℕ → Result ℕ
  find_from tags launch_domain capture_domain zero i = ok i
  find_from tags launch_domain capture_domain (suc rounds) i = do
    tag ← tag_at tags i
    elim (matches launch_domain tag.launch_clock_domain
        && matches capture_domain tag.capture_clock_domain) [
          | true ↦ ok i
          | false ↦ find_from tags launch_domain capture_domain rounds (suc i)
        ]

  pub find_matching_tag : TimingTags F → TagType → DomainId → DomainId → Result ℕ
  unfolding find_from
  find_matching_tag t type launch_domain capture_domain = do
    b ← begin t type
    e ← end t type
    find_from t.tags launch_domain capture_domain (e - b) b

  -- The Boolean says whether the iterator may be processed.
  pub find_data_required_with_valid_data_arrival :
      TimingTags F → DomainId → DomainId → Result (Bool × ℕ)
  unfolding find_matching_tag
  find_data_required_with_valid_data_arrival t launch_domain capture_domain = do
    arr_iter ← find_matching_tag t data_arrival launch_domain none
    arr_end ← end t data_arrival
    req_end ← end t data_required
    let found = find_matching_tag t data_required launch_domain capture_domain >>= λ i. ok (true, i)
    elim (arr_iter == arr_end) [
      | true ↦ ok (false, req_end)
      | false ↦ do
        arr ← tag_at t.tags arr_iter
        if valid F arr.time then found else ok (false, req_end)
    ]

  pub find_matching : TimingTags F → TimingTag F → Bool → Result (Bool × ℕ)
  unfolding find_matching_tag find_data_required_with_valid_data_arrival
  find_matching t tag arr_must_be_valid = elim arr_must_be_valid [
    | true ↦ do
      check (same_type tag.type data_required)
      find_data_required_with_valid_data_arrival t tag.launch_clock_domain tag.capture_clock_domain
    | false ↦ find_matching_tag t tag.type tag.launch_clock_domain tag.capture_clock_domain >>= λ i.
        ok (true, i)
  ]

  -- The tag at a position, changed by `change`; with whether it was modified.
  abbrev change_at :
      TimingTags F → ℕ → (TimingTag F → Result (Bool × TimingTag F)) → Result (Bool × TimingTags F)
  change_at t i change = do
    old ← tag_at t.tags i
    r ← change old
    tags' ← store t.tags (some i) r.1
    ok (r.0, record t { tags = tags' })

  -- max and min, which differ in what they do to the tag that they find.
  merge :
      (TimingTag F → F.Scalar → StrongId → TimingTag F → Result (Bool × TimingTag F))
      → TimingTags F
      → F.Scalar
      → StrongId
      → TimingTag F
      → Bool
      → Result (Bool × TimingTags F)
  unfolding find_matching add_tag
  merge combine t new_time origin base_tag arr_must_be_valid = do
    found ← find_matching t base_tag arr_must_be_valid
    elim found.0 [
      | false ↦ ok (false, t)
      | true ↦ do
        e ← end t base_tag.type
        elim (found.1 == e) [
          | true ↦ add_tag t (derive F new_time origin base_tag)
          | false ↦ change_at t found.1 (λ old. combine old new_time origin base_tag)
        ]
    ]

  unfoldable pub max :
      TimingTags F → F.Scalar → StrongId → TimingTag F → Bool → Result (Bool × TimingTags F)
  unfolding merge Tag.max
  max = merge (Tag.max F)

  pub min : TimingTags F → F.Scalar → StrongId → TimingTag F → Bool → Result (Bool × TimingTags F)
  unfolding merge Tag.min
  min = merge (Tag.min F)

  -- set_tag overwrites a found tag whose time or origin differs.
  abbrev replace : TimingTag F → TimingTag F → Result (Bool × TimingTag F)
  replace tag old =
      if not (F.eq old.time tag.time) || not (same_id old.origin_node tag.origin_node)
      then ok (true, tag)
      else ok (false, old)

  pub set_tag : TimingTags F → TimingTag F → Result (Bool × TimingTags F)
  unfolding find_matching add_tag
  set_tag t tag = do
    found ← find_matching t tag false
    e ← end t tag.type
    elim (found.1 == e) [ true ↦ add_tag t tag | false ↦ change_at t found.1 (replace tag) ]

  unfoldable pub clear : TimingTags F → TimingTags F
  clear t = record t {
    size = 0;
    num_clock_launch_tags = 0;
    num_clock_capture_tags = 0;
    num_data_arrival_tags = 0;
    num_data_required_tags = 0;
  }

  -- The tags of a range of positions.
  unfoldable pub read_range : List (TimingTag F) → ℕ → ℕ → Result (List (TimingTag F))
  read_range tags zero i = ok []
  read_range tags (suc rounds) i = do
    tag ← tag_at tags i
    rest ← read_range tags rounds (suc i)
    ok (tag ∷ rest)

  -- tags(type)
  unfoldable pub tags_of : TimingTags F → TagType → Result (List (TimingTag F))
  unfolding read_range
  tags_of t type = do b ← begin t type; e ← end t type; read_range t.tags (e - b) b

  -- tags()
  unfoldable pub all_tags : TimingTags F → Result (List (TimingTag F))
  unfolding read_range
  all_tags t = read_range t.tags t.size 0

  -- for(tag : range) tag = change(tag), over the positions of a range.
  pub change_range :
      (TimingTag F → TimingTag F) → ℕ → ℕ → List (TimingTag F) → Result (List (TimingTag F))
  change_range change zero i tags = ok tags
  change_range change (suc rounds) i tags = do
    tag ← tag_at tags i
    tags' ← store tags (some i) (change tag)
    change_range change rounds (suc i) tags'

  -- A change of all tags of a type, through mutable_tags(type).
  pub change_type : (TimingTag F → TimingTag F) → TagType → TimingTags F → Result (TimingTags F)
  unfolding change_range
  change_type change type t = do
    b ← begin t type
    e ← end t type
    tags' ← change_range change (e - b) b t.tags
    ok (record t { tags = tags' })

  -- A change of all tags, through mutable_tags().
  pub change_all : (TimingTag F → TimingTag F) → TimingTags F → Result (TimingTags F)
  unfolding change_range
  change_all change t = do
    tags' ← change_range change t.size 0 t.tags
    ok (record t { tags = tags' })
