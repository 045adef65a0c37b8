-- ===== src/Analysis/Trace.antt =====
-- libtatum/tatum/report/timing_path_tracing.cpp: the path behind a slack, traced back from its sink
-- through the origins of the tags. The loops have fuel, one round for each node and one more.
use tatum.Prelude.{
  ℕ, zero, suc, true, false, Option, none, some, List, [], ◌∷◌, length, if◌then◌else◌,
}
use tatum.Result.{
  Result, ok, err, assertion, out_of_range, out_of_fuel, check, or_fault, ◌>>=◌, ◌>>◌,
}
use tatum.Container.{at, is_valid}
use tatum.Time.{Float}
use tatum.Graph.{
  TimingGraph, NodeId, EdgeId, source, sink, cpin, same_node_type, node_type, edge_src_node,
  find_edge, node_clock_capture_edge, node_clock_launch_edge,
}
use tatum.Tags.{tags_of}
use tatum.Tags.Find.{find_tag}
use tatum.Tags.Tag.{
  TimingTag, TagType, DomainId, clock_launch, clock_capture, data_arrival, data_required, slack,
  is_const_gen_tag,
}
use tatum.Analysis.{Tables, get_tags}

pub record TimingPathElem (F : Float) : Type 0 where
  pub tag : TimingTag F
  pub node : NodeId
  pub incomming_edge : EdgeId

abbrev pub TimingSubPath : Float → Type 0
TimingSubPath F = List (TimingPathElem F)

pub record TimingPath (F : Float) : Type 0 where
  pub delay : F.Scalar
  pub slack_value : F.Scalar
  pub startpoint : NodeId
  pub endpoint : NodeId
  pub launch_domain : DomainId
  pub capture_domain : DomainId
  pub clock_launch_path : TimingSubPath F
  pub data_arrival_path : TimingSubPath F
  pub clock_capture_path : TimingSubPath F
  pub data_required_element : TimingPathElem F
  pub slack_tag : TimingTag F

-- The first that is found.
abbrev pub or_then {ℓ} : {A : Type ℓ} → Option A → Option A → Option A
or_then (some a) later = some a
or_then none later = later

module _ (F : Float) (tg : TimingGraph) (s : Tables F)
    (launch_domain capture_domain : DomainId) where
  -- The element of a tag: the edge from the tag's origin, if it has one.
  pub element : TimingTag F → NodeId → Result (TimingPathElem F)
  element tag curr = elim (is_valid tag.origin_node) [
    | false ↦ ok (record { tag = tag; node = curr; incomming_edge = none })
    | true ↦ do
      edge ← find_edge tg tag.origin_node curr
      check (is_valid edge)
      ok (record { tag = tag; node = curr; incomming_edge = edge })
  ]

  -- while(curr_node), from the last element back; the result is in the order of the path.
  pub trace_clock :
      (List (TimingTag F) → Option (TimingTag F))
      → TagType
      → ℕ
      → NodeId
      → TimingSubPath F
      → Result (TimingSubPath F)
  unfolding element
  trace_clock find type fuel none elements = ok elements
  trace_clock find type zero (some curr) elements = err out_of_fuel
  trace_clock find type (suc fuel) (some curr) elements = do
    tags ← get_tags F s (some curr) type
    tag ← or_fault (find tags) assertion
    here ← element tag (some curr)
    trace_clock find type fuel tag.origin_node (here ∷ elements)

  abbrev pub rounds : ℕ
  rounds = suc (length tg.node_ids)

  -- An exact match, or one for any capture domain.
  abbrev pub find_launch : List (TimingTag F) → Option (TimingTag F)
  find_launch tags =
      or_then (find_tag F tags launch_domain capture_domain) (find_tag F tags launch_domain none)

  -- The clock pin at the start of an edge of the clock network.
  abbrev pub clock_pin : EdgeId → Result NodeId
  clock_pin edge = do
    curr ← edge_src_node tg edge
    type ← node_type tg curr
    check (same_node_type type cpin)
    ok curr

  pub trace_clock_launch_path : NodeId → Result (TimingSubPath F)
  unfolding trace_clock
  trace_clock_launch_path data_launch_node = do
    type ← node_type tg data_launch_node
    check (same_node_type type source)
    edge ← node_clock_launch_edge tg data_launch_node
    elim (is_valid edge) [
      | false ↦ ok []
      | true ↦ do curr ← clock_pin edge; trace_clock find_launch clock_launch rounds curr []
    ]

  pub trace_clock_capture_path : NodeId → Result (TimingSubPath F)
  unfolding trace_clock
  trace_clock_capture_path data_capture_node = do
    type ← node_type tg data_capture_node
    check (same_node_type type sink)
    edge ← node_clock_capture_edge tg data_capture_node
    elim (is_valid edge) [
      | false ↦ ok []
      | true ↦ do
        curr ← clock_pin edge
        trace_clock (λ tags. find_tag F tags launch_domain capture_domain) clock_capture rounds curr
            []
    ]

  -- An arrival tag: an exact match, one for any capture domain, or that of a constant generator.
  pub find_arrival : List (TimingTag F) → Result (TimingTag F)
  find_arrival tags = elim (find_launch tags) [
    | some tag ↦ ok tag
    | none ↦ do
      tag ← or_fault (find_tag F tags none none) assertion
      check (is_const_gen_tag F tag)
      ok tag
  ]

  -- Until the origin, or a clock pin.
  pub trace_data : ℕ → NodeId → TimingSubPath F → Result (TimingSubPath F)
  unfolding element find_arrival
  trace_data fuel none elements = ok elements
  trace_data zero (some curr) elements = err out_of_fuel
  trace_data (suc fuel) (some curr) elements = do
    type ← node_type tg (some curr)
    elim (same_node_type type cpin) [
      | true ↦ ok elements
      | false ↦ do
        tags ← get_tags F s (some curr) data_arrival
        tag ← find_arrival tags
        here ← element tag (some curr)
        trace_data fuel tag.origin_node (here ∷ elements)
    ]

  -- back().set_incomming_edge(edge), of the element that the trace added last.
  pub mark_launch : TimingSubPath F → Result (TimingSubPath F)
  mark_launch [] = err out_of_range
  mark_launch (first ∷ later) = do
    edge ← node_clock_launch_edge tg first.node
    ok ((if is_valid edge then record first { incomming_edge = edge } else first) ∷ later)

  pub trace_data_arrival_path : NodeId → Result (TimingSubPath F)
  unfolding trace_data mark_launch
  trace_data_arrival_path data_capture_node = do
    type ← node_type tg data_capture_node
    check (same_node_type type sink)
    elements ← trace_data rounds data_capture_node []
    mark_launch elements

  -- The last element of a path.
  pub last : TimingPathElem F → TimingSubPath F → TimingPathElem F
  last first [] = first
  last first (second ∷ later) = last second later

  pub calc_path_delay : TimingSubPath F → F.Scalar
  unfolding last
  calc_path_delay [] = F.zero_time
  calc_path_delay (first ∷ later) = F.sub (last first later).tag.time first.tag.time

  pub path_end : TimingSubPath F → F.Scalar
  unfolding last
  path_end [] = F.zero_time
  path_end (first ∷ later) = (last first later).tag.time

  pub find_startpoint : TimingSubPath F → Result NodeId
  find_startpoint [] = err assertion
  find_startpoint (first ∷ later) = ok first.node

  pub find_endpoint : TimingSubPath F → Result NodeId
  unfolding last
  find_endpoint [] = err assertion
  find_endpoint (first ∷ later) = ok (last first later).node

  -- The path of a primary input or output has one element, where the clock has none.
  abbrev pub or_single : TagType → DomainId → NodeId → TimingSubPath F → Result (TimingSubPath F)
  or_single type capture id [] = do
    tags ← get_tags F s id type
    tag ← or_fault (find_tag F tags launch_domain capture) assertion
    ok (record { tag = tag; node = id; incomming_edge = none } ∷ [])
  or_single type capture id (first ∷ later) = ok (first ∷ later)

  pub trace_skew_clock_launch_path : NodeId → Result (TimingSubPath F)
  unfolding trace_clock_launch_path
  trace_skew_clock_launch_path node =
      trace_clock_launch_path node >>= or_single data_arrival none node

  pub trace_skew_clock_capture_path : NodeId → Result (TimingSubPath F)
  unfolding trace_clock_capture_path
  trace_skew_clock_capture_path node =
      trace_clock_capture_path node >>= or_single data_required capture_domain node

  -- The required tag of the sink, with the edge between the clock and the data path.
  pub required_element : NodeId → Result (TimingPathElem F)
  required_element node = do
    tags ← get_tags F s node data_required
    tag ← or_fault (find_tag F tags launch_domain capture_domain) assertion
    edge ← node_clock_capture_edge tg node
    ok (record { tag = tag; node = node; incomming_edge = edge })

  pub trace_path : NodeId → Result (TimingPath F)
  unfolding trace_data_arrival_path trace_clock_launch_path trace_clock_capture_path
      required_element calc_path_delay find_startpoint find_endpoint
  trace_path node = do
    type ← node_type tg node
    check (same_node_type type sink)
    slacks ← at s.node_slacks node >>= λ t. tags_of F t slack
    slack_tag ← or_fault (find_tag F slacks launch_domain capture_domain) assertion
    data_path ← trace_data_arrival_path node
    launch_node ← find_startpoint data_path
    launch_path ← trace_clock_launch_path launch_node
    capture_path ← trace_clock_capture_path node
    required ← required_element node
    endpoint ← find_endpoint data_path
    ok (record {
      delay = calc_path_delay data_path;
      slack_value = slack_tag.time;
      startpoint = launch_node;
      endpoint = endpoint;
      launch_domain = launch_domain;
      capture_domain = capture_domain;
      clock_launch_path = launch_path;
      data_arrival_path = data_path;
      clock_capture_path = capture_path;
      data_required_element = required;
      slack_tag = slack_tag;
    })
