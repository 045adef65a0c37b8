-- ===== src/Tags/Examples.antt =====
-- A node with one tag, and the addition of a second one, for which the array grows.
use mathlib.Core.List.{append-nil}
use tatum.Prelude.{
  ℕ, zero, suc, replicate, length-replicate, sym, Bool, false, inl, inr, ◌⊎◌, ◌≡◌, ◌≢◌, refl, true,
  none, some, [], ◌∷◌, arith,
}
use tatum.Result.{ok}
use tatum.Time.Model.{finite, minus_infinity, extended, lt_extended}
use tatum.Tags.Tag
use tatum.Tags.Tag.{TimingTag, TagType, data_arrival, data_required, unknown, const_gen_tag_setup}
use tatum.Tags.{TimingTags, tags_of, add_tag}
use tatum.Time.{valid}
use tatum.Tags.Tag.Update.{AreCompatible, max-upper, min-lower}
use tatum.Tags.Overflow.{add_tag-wraps}
use tatum.Tags.Segments.{AllOfType, Segments, Represents, tags_of-segment}
use tatum.Tags.Add.{HasRoom, added, add_tag-Represents}

abbrev pub arrival_tag : TimingTag extended
arrival_tag = record {
  time = finite 4;
  origin_node = none;
  launch_clock_domain = some 0;
  capture_clock_domain = none;
  type = data_arrival;
}

abbrev required_tag : TimingTag extended
required_tag = record arrival_tag {
  time = finite 9;
  capture_clock_domain = some 0;
  type = data_required;
}

abbrev one_tag : TimingTags extended
one_tag = record {
  size = 1;
  capacity = 1;
  num_clock_launch_tags = 0;
  num_clock_capture_tags = 0;
  num_data_arrival_tags = 0;
  num_data_required_tags = 1;
  tags = required_tag ∷ [];
}

abbrev one_segment : Segments extended
one_segment = record {
  launch = [];
  capture = [];
  arrival = [];
  required = required_tag ∷ [];
  slacks = [];
}

one_tag-Represents : Represents one_tag one_segment
one_tag-Represents = record {
  spare = [];
  layout = refl;
  size_eq = refl;
  capacity_eq = refl;
  launch_eq = refl;
  capture_eq = refl;
  arrival_eq = refl;
  required_eq = refl;
  typed = (tt, tt, tt, (refl, tt), tt);
}

one_tag-HasRoom : HasRoom one_tag one_segment data_arrival
one_tag-HasRoom = record { of_type = omega arith; in_all = omega arith; to_grow = omega arith }

required≢unknown : data_required ≢ unknown
required≢unknown e = cc

arrival≢unknown : data_arrival ≢ unknown
arrival≢unknown e = cc

tags_of-segment_example : tags_of extended one_tag data_required ≡ ok (required_tag ∷ [])
tags_of-segment_example =
    tags_of-segment one_tag one_segment data_required one_tag-Represents required≢unknown

add_tag-Represents_example :
    (t' : TimingTags extended) × (add_tag extended one_tag arrival_tag ≡ ok (true, t'))
    × Represents t' (added one_segment arrival_tag)
add_tag-Represents_example =
    add_tag-Represents one_tag one_segment arrival_tag one_tag-Represents one_tag-HasRoom
      arrival≢unknown

-- The tag of a constant generator.
abbrev constant : TimingTag extended
constant = const_gen_tag_setup extended

constant-AreCompatible : AreCompatible constant arrival_tag
constant-AreCompatible = record { types = refl; domains = inl refl }

max-upper_example :
    (m : Bool) × (result : TimingTag extended) × (Tag.max extended constant
        (finite 4)
        (some 2)
        arrival_tag
      ≡ ok (m, result))
    × (lt_extended result.time (finite 4) ≡ false)
    × (valid extended minus_infinity ≡ true → lt_extended result.time minus_infinity ≡ false)
    × ((result.time ≡ minus_infinity) ⊎ (result.time ≡ finite 4))
max-upper_example = max-upper constant arrival_tag (finite 4) (some 2) constant-AreCompatible

arrival-AreCompatible : AreCompatible arrival_tag arrival_tag
arrival-AreCompatible = record { types = refl; domains = inr (refl, refl) }

min-lower_example :
    (m : Bool) × (result : TimingTag extended) × (Tag.min extended arrival_tag
        (finite 3)
        (some 2)
        arrival_tag
      ≡ ok (m, result))
    × (lt_extended (finite 3) result.time ≡ false)
    × (valid extended (finite 4) ≡ true → lt_extended (finite 4) result.time ≡ false)
    × ((result.time ≡ finite 4) ⊎ (result.time ≡ finite 3))
min-lower_example = min-lower arrival_tag arrival_tag (finite 3) (some 2) arrival-AreCompatible

arrivals-AllOfType : (n : ℕ) → AllOfType data_arrival (replicate n arrival_tag)
arrivals-AllOfType zero = tt
arrivals-AllOfType (suc n) = (refl, arrivals-AllOfType n)

-- A node with as many data arrivals as the counter can tell.
abbrev full_arrivals : TimingTags extended
full_arrivals = record {
  size = 255;
  capacity = 255;
  num_clock_launch_tags = 0;
  num_clock_capture_tags = 0;
  num_data_arrival_tags = 255;
  num_data_required_tags = 0;
  tags = replicate 255 arrival_tag;
}

abbrev full_segment : Segments extended
full_segment = record {
  launch = [];
  capture = [];
  arrival = replicate 255 arrival_tag;
  required = [];
  slacks = [];
}

full_arrivals-Represents : Represents full_arrivals full_segment
full_arrivals-Represents = record {
  spare = [];
  layout = simp append-nil;
  size_eq = refl;
  capacity_eq = sym (length-replicate 255 arrival_tag);
  launch_eq = refl;
  capture_eq = refl;
  arrival_eq = sym (length-replicate 255 arrival_tag);
  required_eq = refl;
  typed = (tt, tt, arrivals-AllOfType 255, tt, tt);
}

add_tag-wraps_example :
    (t' : TimingTags extended) × (add_tag extended full_arrivals arrival_tag ≡ ok (true, t'))
    × (tags_of extended t' data_arrival ≡ ok [])
add_tag-wraps_example =
    add_tag-wraps full_arrivals full_segment arrival_tag full_arrivals-Represents
      (length-replicate 255 arrival_tag) (omega arith) refl
