-- ===== src/Analysis.antt =====
-- libtatum/tatum/graph_visitors/CommonAnalysisOps.hpp and delay_calc/DelayCalculator.hpp: the tables of
-- tags that an analysis fills in, and the operations that tell a setup analysis from a hold analysis.
-- The build option TATUM_CALCULATE_EDGE_SLACKS is taken as set.
pub mod Setup
pub mod Hold
pub mod Guards
pub mod Arrival
pub mod Sink
pub mod Required
pub mod Slack
pub mod Reset
pub mod Visitor
pub mod Walker
pub mod Queue
pub mod Incremental
pub mod IncrTraversal
pub mod Analyzers
pub mod Trace
pub mod Frame
pub mod Critical
pub mod Check
pub mod Collect
pub mod Halts
pub mod Examples
pub mod IncrExamples
use tatum.Prelude.{
  ℕ, zero, suc, ◌-◌, Bool, true, false, ◌||◌, List, [], ◌∷◌, length, replicate, some, none,
  if◌then◌else◌,
}
use tatum.Result.{Result, ok, ◌>>=◌, for_each}
use tatum.Container.{StrongId, at, store}
use tatum.Time.{Float}
use tatum.Graph.{TimingGraph, NodeId, EdgeId}
use tatum.Tags
use tatum.Tags.{TimingTags, make, begin, end, tags_of, set_tag, clear, tag_at}
use tatum.Tags.Tag.{TimingTag, TagType, DomainId, slack}
use tatum.Constraints.{TimingConstraints, IoConstraints}

-- The client's delay calculator.
pub record DelayCalculator (F : Float) : Type 0 where
  pub max_edge_delay : TimingGraph → EdgeId → F.Scalar
  pub min_edge_delay : TimingGraph → EdgeId → F.Scalar
  pub setup_time : TimingGraph → EdgeId → F.Scalar
  pub hold_time : TimingGraph → EdgeId → F.Scalar

-- What the visitor asks of its template parameter. A merge takes the tags of the node.
pub record AnalysisOps (F : Float) : Type 0 where
  pub clock_constraint : TimingConstraints F → DomainId → DomainId → NodeId → F.Scalar
  pub clock_uncertainty : TimingConstraints F → DomainId → DomainId → F.Scalar
  pub launch_source_latency : TimingConstraints F → DomainId → F.Scalar
  pub capture_source_latency : TimingConstraints F → DomainId → F.Scalar
  pub input_constraint : TimingConstraints F → NodeId → DomainId → F.Scalar
  pub input_constraints : TimingConstraints F → NodeId → IoConstraints F
  pub output_constraint : TimingConstraints F → NodeId → DomainId → F.Scalar
  pub const_gen_tag : TimingTag F
  pub merge_req :
      TimingTags F → F.Scalar → StrongId → TimingTag F → Bool → Result (Bool × TimingTags F)
  pub merge_arr : TimingTags F → F.Scalar → StrongId → TimingTag F → Result (Bool × TimingTags F)
  pub data_edge_delay : DelayCalculator F → TimingGraph → EdgeId → Result F.Scalar
  pub launch_clock_edge_delay : DelayCalculator F → TimingGraph → EdgeId → Result F.Scalar
  pub capture_clock_edge_delay : DelayCalculator F → TimingGraph → EdgeId → Result F.Scalar
  pub invalid_arrival_time : F.Scalar
  pub invalid_required_time : F.Scalar
  pub calculate_slack : F.Scalar → F.Scalar → F.Scalar

module _ (F : Float) where
  -- operator>= of floats: false if one of them is a NaN.
  abbrev pub ge : F.Scalar → F.Scalar → Bool
  ge a b = F.lt b a || F.eq a b

  -- TimingTag(time_val, launch_domain, capture_domain, node, new_type)
  abbrev pub make_tag : F.Scalar → DomainId → DomainId → NodeId → TagType → TimingTag F
  make_tag time_val launch_domain capture_domain node new_type = record {
    time = time_val;
    origin_node = node;
    launch_clock_domain = launch_domain;
    capture_clock_domain = capture_domain;
    type = new_type;
  }

  -- The members of CommonAnalysisOps.
  pub record Tables : Type 0 where
    pub node_tags : List (TimingTags F)
    pub edge_slacks : List (TimingTags F)
    pub node_slacks : List (TimingTags F)

  -- CommonAnalysisOps(num_nodes, num_edges); a table's entry is TimingTags(), which reserves three tags.
  abbrev pub new_tables : ℕ → ℕ → Tables
  new_tables num_nodes num_edges = record {
    node_tags = replicate num_nodes (make F 3);
    edge_slacks = replicate num_edges (make F 3);
    node_slacks = replicate num_nodes (make F 3);
  }

  -- Whether the tables were modified, and the tables.
  abbrev pub Step : Type 0
  Step = Bool × Tables

  -- timing_modified |= run(...)
  abbrev pub also : (Tables → Result Step) → Step → Result Step
  also run s = do r ← run s.1; ok (s.0 || r.0, r.1)

  -- An operation on the tags of one entry of a table.
  abbrev pub in_table :
      List (TimingTags F)
      → StrongId
      → (TimingTags F → Result (Bool × TimingTags F))
      → Result (Bool × List (TimingTags F))
  in_table table id run = do
    t ← at table id
    r ← run t
    table' ← store table id r.1
    ok (r.0, table')

  abbrev pub in_node : Tables → NodeId → (TimingTags F → Result (Bool × TimingTags F)) → Result Step
  in_node s node run = do r ← in_table s.node_tags node run; ok (r.0, record s { node_tags = r.1 })

  abbrev pub get_tags : Tables → NodeId → TagType → Result (List (TimingTag F))
  get_tags s node type = do t ← at s.node_tags node; tags_of F t type

  pub set_node_tag : NodeId → TimingTag F → Tables → Result Step
  set_node_tag node tag s = in_node s node (λ t. set_tag F t tag)

  -- merge_slack_tags(node, time, ref_tag)
  pub merge_node_slack : NodeId → F.Scalar → TimingTag F → Tables → Result Step
  merge_node_slack node time ref_tag s = do
    r ←
        in_table s.node_slacks node
          (λ t. Tags.min F t time ref_tag.origin_node (record ref_tag { type = slack }) false)
    ok (r.0, record s { node_slacks = r.1 })

  -- merge_slack_tags(edge, time, ref_tag)
  pub merge_edge_slack : EdgeId → F.Scalar → TimingTag F → Tables → Result Step
  merge_edge_slack edge time ref_tag s = do
    r ←
        in_table s.edge_slacks edge
          (λ t. Tags.min F t time ref_tag.origin_node (record ref_tag { type = slack }) false)
    ok (r.0, record s { edge_slacks = r.1 })

  unfoldable pub reset_node : NodeId → Tables → Result Tables
  reset_node node s = do
    tags ← in_table s.node_tags node (λ t. ok (true, clear F t))
    slacks ← in_table s.node_slacks node (λ t. ok (true, clear F t))
    ok (record s { node_tags = tags.1; node_slacks = slacks.1 })

  unfoldable pub reset_edge : EdgeId → Tables → Result Tables
  reset_edge edge s = do
    slacks ← in_table s.edge_slacks edge (λ t. ok (true, clear F t))
    ok (record s { edge_slacks = slacks.1 })

  -- for(tag : tags) timing_modified |= run(tag)
  unfoldable pub each_tag :
      List (TimingTag F) → (TimingTag F → Tables → Result Step) → Tables → Result Step
  unfolding for_each
  each_tag tags run s = for_each tags (false, s) (λ tag. also (run tag))

  -- timing_modified |= first(...); timing_modified |= second(...);
  abbrev pub both : (Tables → Result Step) → (Tables → Result Step) → Tables → Result Step
  both first second s = do r ← first s; also second r

  -- No change.
  abbrev pub skip : Tables → Result Step
  skip s = ok (false, s)
