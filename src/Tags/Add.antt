-- ===== src/Tags/Add.antt =====
-- The function `add_tag` of tags/TimingTags.inl, against the five lists of tags.
use mathlib.Core.List.{append_assoc}
use tatum.Prelude.{
  ℕ, suc, ◌+◌, ◌<◌, ◌≡◌, ◌≢◌, refl, true, List, [], ◌∷◌, ◌++◌, arith, length, length-append, ap,
  sym, ◌∙◌, length-push,
}
use tatum.Result.{ok}
use tatum.Time.{Float}
use tatum.Tags.Tag.{
  TimingTag, TagType, clock_launch, clock_capture, data_arrival, data_required, slack, unknown,
}
use tatum.Tags.{TimingTags, add_tag, increment_size, end}
use tatum.Tags.Insert.{insert_lem}
use tatum.Tags.Segments.{
  Segments, contents, segment, put, before, after, Represents, AllOfType, contents-put,
  contents_split, end_lem,
}

module _ {F : Float} where
  -- The lists with a tag at the end of the list of its type.
  abbrev pub added : Segments F → TimingTag F → Segments F
  added s tag = put s tag.type (segment s tag.type ++ tag ∷ [])

  -- There is room for one more tag of a type in the widths of the counters.
  pub record HasRoom (t : TimingTags F) (s : Segments F) (ty : TagType) : Type 0 where
    pub of_type : length (segment s ty) < 255
    pub in_all : t.size < 65535
    pub to_grow : t.capacity < 32768

  typed_push :
      (ty : TagType) (l : List (TimingTag F)) (tag : TimingTag F)
      → tag.type ≡ ty
      → AllOfType ty l
      → AllOfType ty (l ++ tag ∷ [])
  typed_push ty [] tag e h = (e, tt)
  typed_push ty (x ∷ l) tag e (hx, h) = (hx, typed_push ty l tag e h)

  length-added :
      (s : Segments F) (ty : TagType) (tag : TimingTag F)
      → ty ≢ unknown
      → length (contents (put s ty (segment s ty ++ tag ∷ []))) ≡ suc (length (contents s))
  length-added s ty tag n =
      let b = before s ty in
      let m = segment s ty in
      let a = after s ty in
      omega (
        arith,
        ap length (contents-put s ty (m ++ tag ∷ []) n),
        ap length (contents_split s ty),
        length-append b ((m ++ tag ∷ []) ++ a),
        length-append (m ++ tag ∷ []) a,
        length-push m tag,
        length-append b (m ++ a),
        length-append m a,
      )

  contents-added :
      (s : Segments F) (ty : TagType) (tag : TimingTag F) (spare : List (TimingTag F))
      → ty ≢ unknown
      → (before s ty ++ segment s ty) ++ (tag ∷ (after s ty ++ spare))
        ≡ contents (put s ty (segment s ty ++ tag ∷ [])) ++ spare
  contents-added s ty tag spare n =
      let b = before s ty in
      let m = segment s ty in
      let a = after s ty in rw (contents-put s ty (m ++ tag ∷ []) n) (simp append_assoc)

  -- The counters after one more tag of a type, when no width is exceeded.
  count_up :
      (t : TimingTags F) (s : Segments F) (ty : TagType) (tag : TimingTag F)
      → Represents t s
      → HasRoom t s ty
      → ty ≢ unknown
      → tag.type ≡ ty
      → (cap : ℕ) (spare : List (TimingTag F))
      → cap ≡ length (contents (put s ty (segment s ty ++ tag ∷ [])) ++ spare)
      → (t' : TimingTags F) × (increment_size F
            (record t {
              capacity = cap;
              tags = contents (put s ty (segment s ty ++ tag ∷ [])) ++ spare;
            })
            ty
          ≡ ok t')
        × Represents t' (put s ty (segment s ty ++ tag ∷ []))
  count_up t s clock_launch tag h room n e cap spare len =
      let (l, c, a, r, k) = h.typed in
      (
        _,
        refl,
        record {
          spare = spare;
          layout = refl;
          size_eq = omega (arith, length-added s clock_launch tag n, h.size_eq, room.in_all);
          capacity_eq = len;
          launch_eq = omega (arith, h.launch_eq, room.of_type, length-push s.launch tag);
          capture_eq = h.capture_eq;
          arrival_eq = h.arrival_eq;
          required_eq = h.required_eq;
          typed = (typed_push clock_launch s.launch tag e l, c, a, r, k);
        },
      )
  count_up t s clock_capture tag h room n e cap spare len =
      let (l, c, a, r, k) = h.typed in
      (
        _,
        refl,
        record {
          spare = spare;
          layout = refl;
          size_eq = omega (arith, length-added s clock_capture tag n, h.size_eq, room.in_all);
          capacity_eq = len;
          launch_eq = h.launch_eq;
          capture_eq = omega (arith, h.capture_eq, room.of_type, length-push s.capture tag);
          arrival_eq = h.arrival_eq;
          required_eq = h.required_eq;
          typed = (l, typed_push clock_capture s.capture tag e c, a, r, k);
        },
      )
  count_up t s data_arrival tag h room n e cap spare len =
      let (l, c, a, r, k) = h.typed in
      (
        _,
        refl,
        record {
          spare = spare;
          layout = refl;
          size_eq = omega (arith, length-added s data_arrival tag n, h.size_eq, room.in_all);
          capacity_eq = len;
          launch_eq = h.launch_eq;
          capture_eq = h.capture_eq;
          arrival_eq = omega (arith, h.arrival_eq, room.of_type, length-push s.arrival tag);
          required_eq = h.required_eq;
          typed = (l, c, typed_push data_arrival s.arrival tag e a, r, k);
        },
      )
  count_up t s data_required tag h room n e cap spare len =
      let (l, c, a, r, k) = h.typed in
      (
        _,
        refl,
        record {
          spare = spare;
          layout = refl;
          size_eq = omega (arith, length-added s data_required tag n, h.size_eq, room.in_all);
          capacity_eq = len;
          launch_eq = h.launch_eq;
          capture_eq = h.capture_eq;
          arrival_eq = h.arrival_eq;
          required_eq = omega (arith, h.required_eq, room.of_type, length-push s.required tag);
          typed = (l, c, a, typed_push data_required s.required tag e r, k);
        },
      )
  count_up t s slack tag h room n e cap spare len =
      let (l, c, a, r, k) = h.typed in
      (
        _,
        refl,
        record {
          spare = spare;
          layout = refl;
          size_eq = omega (arith, length-added s slack tag n, h.size_eq, room.in_all);
          capacity_eq = len;
          launch_eq = h.launch_eq;
          capture_eq = h.capture_eq;
          arrival_eq = h.arrival_eq;
          required_eq = h.required_eq;
          typed = (l, c, a, r, typed_push slack s.slacks tag e k);
        },
      )
  count_up t s unknown tag h room n e cap spare len = absurd (n refl)

  -- When a node's array, counters and widths hold five lists of tags and there is room in the counters
  -- for a tag of a known type, `add_tag` returns true and a state that holds the lists with the tag at the end of the
  -- list of its type, whether or not the array had to grow.
  pub add_tag-Represents :
      (t : TimingTags F) (s : Segments F) (tag : TimingTag F)
      → Represents t s
      → HasRoom t s tag.type
      → tag.type ≢ unknown
      → (t' : TimingTags F) × (add_tag F t tag ≡ ok (true, t')) × Represents t' (added s tag)
  unfolding add_tag
  add_tag-Represents t s tag h room n =
      let ty = tag.type in
      let xs = before s ty ++ segment s ty in
      let ys = after s ty in
      let parts : contents s ≡ xs ++ ys =
        contents_split s ty ∙ sym (append_assoc (before s ty) (segment s ty) ys) in
      let layout : t.tags ≡ xs ++ (ys ++ h.spare) =
        h.layout ∙ ap (λ l. l ++ h.spare) parts ∙ append_assoc xs ys h.spare in
      let size : t.size ≡ length xs + length ys =
        omega (arith, h.size_eq, ap length parts, length-append xs ys) in
      let (cap, spare', run, len) =
        insert_lem t xs ys h.spare tag layout size h.capacity_eq room.to_grow in
      let whole = contents-added s ty tag spare' n in
      let (t', count, rep) = count_up t s ty tag h room n refl cap spare' (len ∙ ap length whole) in
      let place : end F t ty ≡ ok (length xs) =
        end_lem t s h ty n ∙ ap ok (sym (length-append (before s ty) (segment s ty))) in
      (t', rw (place, run, whole, count) refl, rep)
