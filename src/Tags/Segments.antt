-- ===== src/Tags/Segments.antt =====
-- The abstract view of the tags of a node: five lists, one for each type of tag. The array
-- is to hold these lists one after the other, and the counters their lengths.
use mathlib.Core.List.{append_assoc, append-nil}
use tatum.Prelude.{
  ℕ, suc, ◌+◌, ◌≡◌, ◌-◌, shift, length-push, ◌≢◌, refl, List, [], ◌∷◌, ◌++◌, arith, length,
  length-append, ap, sym,
}
use tatum.Result.{ok, ◌>>=◌}
use tatum.Time.{Float}
use tatum.Tags.Tag.{
  TimingTag, TagType, clock_launch, clock_capture, data_arrival, data_required, slack, unknown,
}
use tatum.Tags.{TimingTags, begin, end, read_range, tags_of}
use tatum.Tags.Array.{read_at}

pub record Segments (F : Float) : Type 0 where
  pub launch : List (TimingTag F)
  pub capture : List (TimingTag F)
  pub arrival : List (TimingTag F)
  pub required : List (TimingTag F)
  pub slacks : List (TimingTag F)

module _ {F : Float} where
  abbrev pub contents : Segments F → List (TimingTag F)
  contents s = s.launch ++ (s.capture ++ (s.arrival ++ (s.required ++ s.slacks)))

  abbrev pub segment : Segments F → TagType → List (TimingTag F)
  segment s clock_launch = s.launch
  segment s clock_capture = s.capture
  segment s data_arrival = s.arrival
  segment s data_required = s.required
  segment s slack = s.slacks
  segment s unknown = []

  abbrev pub put : Segments F → TagType → List (TimingTag F) → Segments F
  put s clock_launch l = record s { launch = l }
  put s clock_capture l = record s { capture = l }
  put s data_arrival l = record s { arrival = l }
  put s data_required l = record s { required = l }
  put s slack l = record s { slacks = l }
  put s unknown l = s

  -- The tags that stand before and after those of a type.
  abbrev pub before : Segments F → TagType → List (TimingTag F)
  before s clock_launch = []
  before s clock_capture = s.launch
  before s data_arrival = s.launch ++ s.capture
  before s data_required = s.launch ++ (s.capture ++ s.arrival)
  before s slack = s.launch ++ (s.capture ++ (s.arrival ++ s.required))
  before s unknown = []

  abbrev pub after : Segments F → TagType → List (TimingTag F)
  after s clock_launch = s.capture ++ (s.arrival ++ (s.required ++ s.slacks))
  after s clock_capture = s.arrival ++ (s.required ++ s.slacks)
  after s data_arrival = s.required ++ s.slacks
  after s data_required = s.slacks
  after s slack = []
  after s unknown = contents s

  pub contents-put :
      (s : Segments F) (ty : TagType) (l : List (TimingTag F))
      → ty ≢ unknown
      → contents (put s ty l) ≡ before s ty ++ (l ++ after s ty)
  contents-put s clock_launch l h = refl
  contents-put s clock_capture l h = refl
  contents-put s data_arrival l h = simp append_assoc
  contents-put s data_required l h = simp append_assoc
  contents-put s slack l h = simp (append_assoc, append-nil)
  contents-put s unknown l h = absurd (h refl)

  pub contents_split :
      (s : Segments F) (ty : TagType) → contents s ≡ before s ty ++ (segment s ty ++ after s ty)
  contents_split s clock_launch = refl
  contents_split s clock_capture = refl
  contents_split s data_arrival = simp append_assoc
  contents_split s data_required = simp append_assoc
  contents_split s slack = simp (append_assoc, append-nil)
  contents_split s unknown = refl

  abbrev pub AllOfType : TagType → List (TimingTag F) → Type 0
  AllOfType ty [] = Unit
  AllOfType ty (t ∷ ts) = (t.type ≡ ty) × AllOfType ty ts

  abbrev pub AllTyped : Segments F → Type 0
  AllTyped s =
      AllOfType clock_launch s.launch
      × AllOfType clock_capture s.capture
      × AllOfType data_arrival s.arrival
      × AllOfType data_required s.required
      × AllOfType slack s.slacks

  -- The array begins with the tags of the five lists, and the counters and widths agree with it.
  pub record Represents (t : TimingTags F) (s : Segments F) : Type 0 where
    pub spare : List (TimingTag F)
    pub layout : t.tags ≡ contents s ++ spare
    pub size_eq : t.size ≡ length (contents s)
    pub capacity_eq : t.capacity ≡ length t.tags
    pub launch_eq : t.num_clock_launch_tags ≡ length s.launch
    pub capture_eq : t.num_clock_capture_tags ≡ length s.capture
    pub arrival_eq : t.num_data_arrival_tags ≡ length s.arrival
    pub required_eq : t.num_data_required_tags ≡ length s.required
    pub typed : AllTyped s

  module _ (t : TimingTags F) (s : Segments F) (h : Represents t s) where
    pub begin_lem : (ty : TagType) → ty ≢ unknown → begin F t ty ≡ ok (length (before s ty))
    begin_lem clock_launch n = refl
    begin_lem clock_capture n = ap ok h.launch_eq
    begin_lem data_arrival n =
        ap ok (omega (arith, length-append s.launch s.capture, h.launch_eq, h.capture_eq))
    begin_lem data_required n = ap ok (
        omega (
          arith,
          length-append s.launch (s.capture ++ s.arrival),
          length-append s.capture s.arrival,
          h.launch_eq,
          h.capture_eq,
          h.arrival_eq,
        ))
    begin_lem slack n = ap ok (
        omega (
          arith,
          length-append s.launch (s.capture ++ (s.arrival ++ s.required)),
          length-append s.capture (s.arrival ++ s.required),
          length-append s.arrival s.required,
          h.launch_eq,
          h.capture_eq,
          h.arrival_eq,
          h.required_eq,
        ))
    begin_lem unknown n = absurd (n refl)

    pub end_lem :
        (ty : TagType)
        → ty ≢ unknown
        → end F t ty ≡ ok (length (before s ty) + length (segment s ty))
    end_lem clock_launch n = ap ok (omega (arith, h.launch_eq))
    end_lem clock_capture n = ap ok (omega (arith, h.launch_eq, h.capture_eq))
    end_lem data_arrival n =
        ap ok
          (omega (arith, length-append s.launch s.capture, h.launch_eq, h.capture_eq, h.arrival_eq))
    end_lem data_required n = ap ok (
        omega (
          arith,
          length-append s.launch (s.capture ++ s.arrival),
          length-append s.capture s.arrival,
          h.launch_eq,
          h.capture_eq,
          h.arrival_eq,
          h.required_eq,
        ))
    end_lem slack n = ap ok (
        omega (
          arith,
          h.size_eq,
          ap length (contents_split s slack),
          length-append (before s slack) (segment s slack ++ after s slack),
          length-append (segment s slack) [],
        ))
    end_lem unknown n = absurd (n refl)

  read_range_lem :
      (pre mid post : List (TimingTag F)) (i : ℕ)
      → i ≡ length pre
      → read_range F (pre ++ (mid ++ post)) (length mid) i ≡ ok mid
  unfolding read_range
  read_range_lem pre [] post i e = refl
  read_range_lem pre (x ∷ mid) post i e =
      let later =
        read_range_lem (pre ++ x ∷ []) mid post (suc i) (rw (length-push pre x) (ap suc e)) in
      let rest = rw (sym (shift pre x (mid ++ post))) at later in
      rw (read_at pre (mid ++ post) x i e) (ap (λ r. r >>= λ l. ok (x ∷ l)) rest)

  -- When a node's array, counters and widths hold five lists of tags, for a known type the tags that an iteration from
  -- `begin(type)` to `end(type)` reads are those of the type's list, in order.
  pub tags_of-segment :
      (t : TimingTags F) (s : Segments F) (ty : TagType)
      → Represents t s
      → ty ≢ unknown
      → tags_of F t ty ≡ ok (segment s ty)
  unfolding tags_of
  tags_of-segment t s ty h n =
      let front = before s ty in
      let mid = segment s ty in
      let back = after s ty ++ h.spare in
      let count : length front + length mid - length front ≡ length mid = omega arith in
      let split : t.tags ≡ front ++ (mid ++ back) =
        rw
          (
            contents_split s ty,
            append_assoc front (mid ++ after s ty) h.spare,
            append_assoc mid (after s ty) h.spare,
          )
          at h.layout in
      rw (begin_lem t s h ty n, end_lem t s h ty n, count, split)
        (read_range_lem front mid back (length front) refl)
