-- ===== src/Analysis/Examples.antt =====
-- The arrival traversal of a setup analysis, on a graph of two nodes and an edge.
use tatum.Prelude.{◌≡◌, refl, true, some, [], ◌∷◌}
use tatum.Result.{ok}
use tatum.Time.Model.{finite, extended}
use tatum.Graph.Edit.Examples.{joined}
use tatum.Analysis.Guards.{
  should_propagate_clocks, should_propagate_clock_launch_tags, should_propagate_clock_capture_tags,
  is_clock_data_launch_edge, should_propagate_data,
}
use tatum.Constraints.{node_is_clock_source}
use tatum.Tags.{tags_of, shift_right}
use tatum.Analysis.Setup.{max_delay}
use tatum.Analysis.Sink.{mark_sink_required_times}
use tatum.Graph.{node_clock_capture_edge}
use tatum.Constraints.Io.{node_clock_domain}
use tatum.Tags
use tatum.Tags.{TimingTags, make}
use tatum.Tags.Tag.{TimingTag}
use tatum.Tags.Examples.{arrival_tag}
use tatum.Constraints.Examples.{clocks}
use tatum.Analysis.{DelayCalculator, Tables}
use tatum.Analysis.Setup.{setup_ops}
use tatum.Analysis.Arrival.{do_arrival_traverse_node}
use tatum.Analysis.Frame.{DiffersAt, do_arrival_traverse_node-DiffersAt}

-- A delay of 1 for every edge.
abbrev pub unit_delays : DelayCalculator extended
unit_delays = record {
  max_edge_delay = λ g e. finite 1;
  min_edge_delay = λ g e. finite 1;
  setup_time = λ g e. finite 1;
  hold_time = λ g e. finite 1;
}

abbrev one_arrival : TimingTag extended → TimingTags extended
one_arrival tag = record (make extended 1) { size = 1; num_data_arrival_tags = 1; tags = tag ∷ [] }

abbrev launched : Tables extended
launched = record {
  node_tags = one_arrival arrival_tag ∷ make extended 1 ∷ [];
  edge_slacks = make extended 1 ∷ [];
  node_slacks = make extended 1 ∷ make extended 1 ∷ [];
}

-- The sink has the arrival of the source with the delay of the edge.
abbrev arrived : Tables extended
arrived = record launched {
  node_tags =
      one_arrival arrival_tag
      ∷ one_arrival (record arrival_tag { time = finite 5; origin_node = some 0 })
      ∷ [];
}

arrival_run :
    do_arrival_traverse_node extended
      (setup_ops extended)
      joined
      clocks
      unit_delays
      (some 1)
      launched
    ≡ ok (true, arrived)
unfolding do_arrival_traverse_node should_propagate_clocks node_is_clock_source
    should_propagate_clock_launch_tags tags_of should_propagate_clock_capture_tags
    is_clock_data_launch_edge should_propagate_data max_delay Tags.max shift_right
    mark_sink_required_times node_clock_capture_edge node_clock_domain
arrival_run = refl

do_arrival_traverse_node-DiffersAt_example : DiffersAt (some 1) launched arrived
do_arrival_traverse_node-DiffersAt_example =
    do_arrival_traverse_node-DiffersAt extended (setup_ops extended) joined clocks unit_delays
      (some 1) launched arrived true arrival_run
