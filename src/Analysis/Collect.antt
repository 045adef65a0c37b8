-- ===== src/Analysis/Collect.antt =====
-- libtatum/tatum/report/TimingPathCollector.cpp: the paths of the worst slacks, and of the worst skews. The
-- order of std::sort among equal keys, which is not specified, is the order before.
use tatum.Prelude.{
  ℕ, zero, suc, Bool, true, false, List, [], ◌∷◌, ◌++◌, length, leb, none, if◌then◌else◌,
}
use tatum.Result.{Result, ok, err, assertion, ◌>>=◌}
use tatum.Container.{at, push_back}
use tatum.Time.{Float}
use tatum.Graph.{TimingGraph, NodeId, sink, same_node_type, node_type, logical_outputs}
use tatum.Tags.{tags_of}
use tatum.Tags.Tag.{TimingTag, DomainId, data_required, slack, is_const_gen_tag}
use tatum.Constraints.{
  TimingConstraints, DelayType, setup_constraint, hold_constraint, setup_clock_uncertainty,
  hold_clock_uncertainty,
}
use tatum.Constraints.Io.{input_constraint, output_constraint}
use tatum.Analysis.{Tables, get_tags}
use tatum.Analysis.Trace.{
  TimingPath, TimingSubPath, trace_path, trace_data_arrival_path, trace_clock_launch_path,
  trace_clock_capture_path, path_end,
}
use tatum.Analysis.Critical.{TimingType}
use tatum.Analysis.Critical

-- std::sort by a strict order.
pub place_by : {A : Type 0} → (A → A → Bool) → A → List A → List A
place_by before x [] = x ∷ []
place_by before x (y ∷ ys) =
    let rest = place_by before x ys in if before y x then y ∷ rest else x ∷ y ∷ ys

pub sort_by : {A : Type 0} → (A → A → Bool) → List A → List A
unfolding place_by
sort_by before [] = []
sort_by before (x ∷ xs) = place_by before x (sort_by before xs)

-- resize(std::min(size(), npaths))
pub first_n : {A : Type 0} → ℕ → List A → List A
first_n zero xs = []
first_n (suc n) [] = []
first_n (suc n) (x ∷ xs) = x ∷ first_n n xs

-- SkewPath.hpp
pub record SkewPath (F : Float) : Type 0 where
  pub launch_domain : DomainId
  pub capture_domain : DomainId
  pub clock_launch_path : TimingSubPath F
  pub clock_capture_path : TimingSubPath F
  pub data_launch_node : NodeId
  pub data_capture_node : NodeId
  pub clock_launch_arrival : F.Scalar
  pub clock_capture_arrival : F.Scalar
  pub clock_constraint : F.Scalar
  pub clock_skew : F.Scalar

module _ (F : Float) (tg : TimingGraph) (s : Tables F) where
  -- A slack and its sink.
  abbrev pub TagNode : Type 0
  TagNode = TimingTag F × NodeId

  pub with_node : NodeId → List (TimingTag F) → List TagNode
  with_node id [] = []
  with_node id (tag ∷ tags) = (tag, id) ∷ with_node id tags

  pub tags_and_sinks : List NodeId → Result (List TagNode)
  unfolding with_node
  tags_and_sinks [] = ok []
  tags_and_sinks (node ∷ nodes) = do
    t ← at s.node_slacks node
    tags ← tags_of F t slack
    rest ← tags_and_sinks nodes
    ok (with_node node tags ++ rest)

  abbrev pub ascending_slack_order : TagNode → TagNode → Bool
  ascending_slack_order lhs rhs = F.lt lhs.0.time rhs.0.time

  -- The loop ends after a path with which there are as many as are asked for.
  pub trace_paths : ℕ → List TagNode → List (TimingPath F) → Result (List (TimingPath F))
  trace_paths npaths [] paths = ok paths
  trace_paths npaths (tag_node ∷ rest) paths = do
    path ←
        trace_path F tg s tag_node.0.launch_clock_domain tag_node.0.capture_clock_domain tag_node.1
    let paths' = push_back paths path
    elim (leb npaths (length paths')) [ true ↦ ok paths' | false ↦ trace_paths npaths rest paths' ]

  pub collect_worst_timing_paths : ℕ → Result (List (TimingPath F))
  unfolding tags_and_sinks sort_by trace_paths
  collect_worst_timing_paths npaths = do
    nodes ← logical_outputs tg
    tags ← tags_and_sinks nodes
    trace_paths npaths (sort_by ascending_slack_order tags) []

  -- if(timing_type == SETUP) setup else { TATUM_ASSERT(timing_type == HOLD); hold }
  abbrev pub by_type : {A : Type 0} → TimingType → A → A → Result A
  by_type Critical.setup setup_value hold_value = ok setup_value
  by_type Critical.hold setup_value hold_value = ok hold_value
  by_type Critical.unknown setup_value hold_value = err assertion

  module _ (tc : TimingConstraints F) (timing_type : TimingType) where
    pub clock_launch_arrival : F.Scalar → NodeId → DomainId → TimingSubPath F → Result F.Scalar
    clock_launch_arrival data_time id launch [] =
        by_type timing_type (F.sub data_time (input_constraint F tc id launch DelayType.max))
          (F.sub data_time (input_constraint F tc id launch DelayType.min))
    clock_launch_arrival data_time id launch (e ∷ es) = ok (path_end F tg s launch launch (e ∷ es))

    pub clock_capture_arrival :
        F.Scalar → NodeId → DomainId → DomainId → TimingSubPath F → Result F.Scalar
    clock_capture_arrival required_time id launch capture [] =
        by_type timing_type (F.add required_time (output_constraint F tc id capture DelayType.max))
          (F.add required_time (output_constraint F tc id capture DelayType.min))
    clock_capture_arrival required_time id launch capture (e ∷ es) =
        let arrival = path_end F tg s launch capture (e ∷ es) in
        by_type timing_type (F.sub arrival (setup_clock_uncertainty F tc launch capture))
          (F.add arrival (hold_clock_uncertainty F tc launch capture))

    -- The path of a required tag of a sink; constant generators do not have skew.
    pub skew_paths : NodeId → List (TimingTag F) → List (SkewPath F) → Result (List (SkewPath F))
    unfolding clock_launch_arrival clock_capture_arrival
    skew_paths id [] paths = ok paths
    skew_paths id (required_tag ∷ required_tags) paths = do
      let launch = required_tag.launch_clock_domain
      let capture = required_tag.capture_clock_domain
      data_arrival_path ← trace_data_arrival_path F tg s launch capture id
      elim data_arrival_path [
        | [] ↦ err assertion
        | data_launch_elem ∷ _ ↦ do
          next ← elim (is_const_gen_tag F data_launch_elem.tag) [
            | true ↦ ok paths
            | false ↦ do
              launch_path ← trace_clock_launch_path F tg s launch capture data_launch_elem.node
              capture_path ← trace_clock_capture_path F tg s launch capture id
              launch_arrival ←
                  clock_launch_arrival data_launch_elem.tag.time data_launch_elem.node launch
                    launch_path
              capture_arrival ←
                  clock_capture_arrival required_tag.time id launch capture capture_path
              constraint ←
                  by_type timing_type (setup_constraint F tc launch capture none)
                    (hold_constraint F tc launch capture none)
              ok (
                  push_back paths (record {
                    launch_domain = launch;
                    capture_domain = capture;
                    clock_launch_path = launch_path;
                    clock_capture_path = capture_path;
                    data_launch_node = data_launch_elem.node;
                    data_capture_node = id;
                    clock_launch_arrival = launch_arrival;
                    clock_capture_arrival = capture_arrival;
                    clock_constraint = constraint;
                    clock_skew = F.sub (F.sub capture_arrival launch_arrival) constraint;
                  }))
          ]
          skew_paths id required_tags next
      ]

    -- The sinks only.
    pub skew_paths_of_nodes : List NodeId → List (SkewPath F) → Result (List (SkewPath F))
    unfolding skew_paths
    skew_paths_of_nodes [] paths = ok paths
    skew_paths_of_nodes (id ∷ ids) paths = do
      type ← node_type tg id
      next ← elim (same_node_type type sink) [
        | false ↦ ok paths
        | true ↦ get_tags F s id data_required >>= λ tags. skew_paths id tags paths
      ]
      skew_paths_of_nodes ids next

    -- Setup: the most negative skews first; hold: the most positive ones.
    abbrev pub skew_order : TimingType → SkewPath F → SkewPath F → Bool
    skew_order Critical.setup lhs rhs = F.lt lhs.clock_skew rhs.clock_skew
    skew_order _ lhs rhs = F.lt rhs.clock_skew lhs.clock_skew

    pub collect_worst_skew_paths : ℕ → Result (List (SkewPath F))
    unfolding skew_paths_of_nodes sort_by first_n
    collect_worst_skew_paths npaths = do
      paths ← skew_paths_of_nodes tg.node_ids []
      ok (first_n npaths (sort_by (skew_order timing_type) paths))
