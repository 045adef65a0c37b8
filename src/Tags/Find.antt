-- ===== src/Tags/Find.antt =====
-- libtatum/tatum/tags/TimingTags.cpp: what a range of tags says. A range is the list of its tags.
use tatum.Prelude.{Bool, false, ◌&&◌, ◌||◌, Option, none, some, List, [], ◌∷◌, if◌then◌else◌}
use tatum.Container.{same_id}
use tatum.Time.{Float}
use tatum.Graph.{NodeType, source, sink, ipin, opin, cpin}
use tatum.Tags.Tag.{
  TimingTag, TagType, DomainId, clock_launch, clock_capture, data_required, same_type,
}

module _ (F : Float) where
  -- `none` is the end of the range.
  pub find_tag : List (TimingTag F) → DomainId → DomainId → Option (TimingTag F)
  find_tag [] launch_domain capture_domain = none
  find_tag (tag ∷ tags) launch_domain capture_domain =
      let later = find_tag tags launch_domain capture_domain in
      if same_id tag.launch_clock_domain launch_domain
        && same_id tag.capture_clock_domain capture_domain
      then some tag
      else later

  -- has_clock_launch, has_clock_capture and has_data_required
  pub has_type : TagType → List (TimingTag F) → Bool
  has_type type [] = false
  has_type type (tag ∷ tags) = same_type tag.type type || has_type type tags

  pub is_constrained : NodeType → List (TimingTag F) → Bool
  unfolding has_type
  is_constrained sink tags = has_type data_required tags || has_type clock_launch tags
  is_constrained source tags =
      has_type data_required tags || (has_type clock_launch tags && has_type clock_capture tags)
  is_constrained ipin tags = has_type data_required tags
  is_constrained opin tags = has_type data_required tags
  is_constrained cpin tags = has_type clock_launch tags && has_type clock_capture tags
