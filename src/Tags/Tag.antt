-- ===== src/Tags/Tag.antt =====
-- libtatum/tatum/tags/TimingTag.hpp and TimingTag.inl: one timing tag.
pub mod Update
use tatum.Prelude.{Bool, true, false, not, ◌&&◌, ◌||◌, none, if◌then◌else◌}
use tatum.Result.{Result, ok, check, ◌>>=◌, ◌>>◌}
use tatum.Container.{StrongId, is_valid, same_id}
use tatum.Time.{Float, valid, gt}

abbrev pub DomainId : Type 0
DomainId = StrongId

pub data TagType : Type 0 where
  clock_launch clock_capture data_arrival data_required slack unknown : TagType

abbrev pub same_type : TagType → TagType → Bool
same_type clock_launch clock_launch = true
same_type clock_capture clock_capture = true
same_type data_arrival data_arrival = true
same_type data_required data_required = true
same_type slack slack = true
same_type unknown unknown = true
same_type _ _ = false

pub record TimingTag (F : Float) : Type 0 where
  pub time : F.Scalar
  pub origin_node : StrongId
  pub launch_clock_domain : DomainId
  pub capture_clock_domain : DomainId
  pub type : TagType

module _ (F : Float) where
  -- TimingTag()
  abbrev pub default_tag : TimingTag F
  default_tag = record {
    time = F.nan;
    origin_node = none;
    launch_clock_domain = none;
    capture_clock_domain = none;
    type = unknown;
  }

  abbrev pub const_gen_tag_setup : TimingTag F
  const_gen_tag_setup = record {
    time = F.neg F.infinity;
    origin_node = none;
    launch_clock_domain = none;
    capture_clock_domain = none;
    type = data_arrival;
  }

  abbrev pub const_gen_tag_hold : TimingTag F
  const_gen_tag_hold = record {
    time = F.infinity;
    origin_node = none;
    launch_clock_domain = none;
    capture_clock_domain = none;
    type = data_arrival;
  }

  -- TimingTag(time_val, origin, base_tag)
  abbrev pub derive : F.Scalar → StrongId → TimingTag F → TimingTag F
  derive time_val origin base_tag = record base_tag { time = time_val; origin_node = origin }

  abbrev pub is_const_gen_tag : TimingTag F → Bool
  is_const_gen_tag tag =
      not (is_valid tag.launch_clock_domain)
      && not (is_valid tag.capture_clock_domain)
      && F.is_inf tag.time

  -- The tag with its domains taken from `base_tag`, if it is a constant generator's.
  abbrev pub swallow : TimingTag F → TimingTag F → TimingTag F
  swallow tag base_tag =
      if is_const_gen_tag tag
      then record tag {
        launch_clock_domain = base_tag.launch_clock_domain;
        capture_clock_domain = base_tag.capture_clock_domain;
      }
      else tag

  unfoldable pub update : TimingTag F → F.Scalar → StrongId → TimingTag F → Result (TimingTag F)
  update tag new_time origin base_tag = do
    check (same_type tag.type base_tag.type)
    let tag' = swallow tag base_tag
    check (
        same_id tag'.launch_clock_domain base_tag.launch_clock_domain
        && same_id tag'.capture_clock_domain base_tag.capture_clock_domain)
    ok (record tag' { time = new_time; origin_node = origin })

  -- Each operation returns whether it has modified the tag, and the tag.
  unfoldable pub max : TimingTag F → F.Scalar → StrongId → TimingTag F → Result (Bool × TimingTag F)
  unfolding update
  max tag new_time origin base_tag =
      if not (valid F tag.time) || gt F new_time tag.time
      then (update tag new_time origin base_tag >>= λ tag'. ok (true, tag'))
      else ok (false, tag)

  unfoldable pub min : TimingTag F → F.Scalar → StrongId → TimingTag F → Result (Bool × TimingTag F)
  unfolding update
  min tag new_time origin base_tag =
      if not (valid F tag.time) || F.lt new_time tag.time
      then (update tag new_time origin base_tag >>= λ tag'. ok (true, tag'))
      else ok (false, tag)
