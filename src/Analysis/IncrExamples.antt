-- ===== src/Analysis/IncrExamples.antt =====
-- Incremental and full updates of a graph of two nodes and an edge, which has two levels, and a list of
-- critical paths.
use tatum.Prelude.{
  ℕ, zero, suc, ◌≡◌, ◌≢◌, ◌⊎◌, refl, arith, true, false, ◌||◌, none, some, List, [], ◌∷◌, get_or,
  length,
}
use tatum.Result.{Result, ok, err, out_of_range}
use tatum.Result.Ends.{Ends, Returns}
use tatum.Container.{same_id}
use tatum.Time.Model.{extended, finite}
use tatum.Graph.{TimingGraph, NodeId, EdgeId}
use tatum.Graph.Edit.Examples.{joined}
use tatum.Constraints.Examples.{clocks}
use tatum.Analysis.{DelayCalculator, Tables, new_tables}
use tatum.Analysis.Visitor.{setup_hold_visitor}
use tatum.Analysis.Walker
use tatum.Analysis.Walker.{Walk}
use tatum.Analysis.Queue.{Queue, last_index, is_marked, enqueue_node}
use tatum.Analysis.Queue.Marks.{count}
use tatum.Analysis.Queue.Contents.{IsQueue, Enqueued, enqueue_node-IsQueue}
use tatum.Analysis.Queue.Clear.{is_marked-none}
use tatum.Analysis.Incremental.{IncrWalk, new_walk, invalidate_edge, prepare_incr_update}
use tatum.Analysis.Incremental.Edges.{IsInvalidated, SameQueues, invalidate_edge-IsInvalidated}
use tatum.Analysis.Incremental.Prepare.{
  HasLevels, IsReady, Joined, Queued, is_sink_of, is_source_of, prepare_incr_update-Prepared,
  prepare_incr_update_shrunk,
}
use tatum.Analysis.Halts.Visit.{setup_hold_visitor-Finishes}
use tatum.Analysis.Analyzers.{
  IncrAnalyzer, update_incremental, update_setup_timing, update_hold_timing, update_timing,
}
use tatum.Analysis.Analyzers.Full.{update_timing-eq-separate}
use tatum.Analysis.Examples.{unit_delays}
use tatum.Analysis.Critical.{TimingPathInfo, TimingType, record_path}
use tatum.Analysis.Critical.Best.{best, record_path-best}
use tatum.Analysis.Analyzers.Ends.{update_incremental-Ends}

abbrev pub levelled : TimingGraph
levelled = record joined {
  is_levelized = true;
  node_levels = some 0 ∷ some 1 ∷ [];
  level_ids = some 0 ∷ some 1 ∷ [];
  level_nodes = (some 0 ∷ []) ∷ (some 1 ∷ []) ∷ [];
}

abbrev cleared : Queue
cleared = record {
  nodes_to_process = [] ∷ [] ∷ [];
  min_level = 1;
  max_level = 0;
  node_is_enqueued = [];
}

-- Lists without nodes.
no_nodes : (l : ℕ) → get_or {A = List NodeId} ([] ∷ [] ∷ []) l [] ≡ []
no_nodes zero = refl
no_nodes (suc zero) = refl
no_nodes (suc (suc l)) = refl

cleared-IsQueue : IsQueue levelled cleared
cleared-IsQueue = record {
  once = λ n l. rw (no_nodes l, is_marked-none n) refl;
  range = λ l out. no_nodes l;
  bound = omega arith;
}

enqueue_node-IsQueue_example :
    Returns
      (λ q'.
        IsQueue levelled q'
        × (length q'.nodes_to_process ≡ 2)
        × ((m : NodeId) → is_marked q'.node_is_enqueued m ≡ (same_id (some 1) m || is_marked [] m))
        × (((false ≡ true) × (q' ≡ cleared)) ⊎ ((false ≡ false) × Enqueued 1 1 cleared q')))
      (enqueue_node levelled (some 1) cleared)
enqueue_node-IsQueue_example =
    enqueue_node-IsQueue levelled 1 1 cleared cleared-IsQueue refl (omega arith)

abbrev new : IncrWalk (Unit {0})
new = new_walk tt

new-IsInvalidated : IsInvalidated new
new-IsInvalidated e = rw (is_marked-none e) refl

invalidate_edge-IsInvalidated_example :
    Returns
      (λ w'.
        IsInvalidated w'
        × ((m : EdgeId) → is_marked w'.edge_invalidated m ≡ (same_id (some 0) m || is_marked [] m))
        × SameQueues new w')
      (invalidate_edge (some 0) new)
invalidate_edge-IsInvalidated_example = invalidate_edge-IsInvalidated 0 new new-IsInvalidated

abbrev changed : IncrWalk (Unit {0})
changed = record new { invalidated_edges = some 0 ∷ []; edge_invalidated = true ∷ [] }

changed-IsInvalidated : IsInvalidated changed
changed-IsInvalidated none = refl
changed-IsInvalidated (some zero) = refl
changed-IsInvalidated (some (suc i)) = ground arith

levelled-HasLevels : HasLevels levelled 2
unfolding last_index
levelled-HasLevels = record {
  ids = some 0 ∷ some 1 ∷ [];
  last = 1;
  first = 0;
  is_levels = refl;
  is_last = refl;
  is_first = refl;
  many = refl;
  first_in = omega arith;
}

changed-IsReady : IsReady levelled 2 changed
changed-IsReady = record {
  invalidated = changed-IsInvalidated;
  arr_range = λ l out. refl;
  req_range = λ l out. refl;
  arr_in = omega arith;
  req_in = omega arith;
}

changed-Joined : (e : EdgeId) → count e (some 0 ∷ []) ≢ 0 → Joined levelled 2 e
changed-Joined none some_left = absurd (some_left refl)
changed-Joined (some zero) some_left = record {
  to_sink = record { id = 1; level = 1; is_id = refl; at_level = refl; in_range = omega arith };
  from_source = record { id = 0; level = 0; is_id = refl; at_level = refl; in_range = omega arith };
}
changed-Joined (some (suc i)) some_left = absurd (some_left (ground arith))

prepare_incr_update-Prepared_example :
    Returns
      (λ w'.
        Queued levelled 2 w'
        × ((m : NodeId)
            → is_marked w'.incr_arr_update.node_is_enqueued m ≡ is_sink_of levelled (some 0 ∷ []) m)
        × ((m : NodeId)
            → is_marked w'.incr_req_update.node_is_enqueued m
              ≡ is_source_of levelled (some 0 ∷ []) m)
        × (w'.invalidated_edges ≡ some 0 ∷ [])
        × (w'.edge_invalidated ≡ true ∷ [])
        × (w'.tables ≡ tt))
      (prepare_incr_update levelled changed)
prepare_incr_update-Prepared_example =
    prepare_incr_update-Prepared levelled 2 changed levelled-HasLevels changed-IsReady
      changed-Joined

-- A walker that came to a third level.
abbrev higher : IncrWalk (Unit {0})
higher = record new {
  incr_arr_update = record {
    nodes_to_process = [] ∷ [] ∷ (some 2 ∷ []) ∷ [];
    min_level = 2;
    max_level = 2;
    node_is_enqueued = false ∷ false ∷ true ∷ [];
  };
}

prepare_incr_update_shrunk_example : prepare_incr_update levelled higher ≡ err out_of_range
prepare_incr_update_shrunk_example =
    prepare_incr_update_shrunk levelled 2 higher (some 0 ∷ some 1 ∷ []) refl (omega arith)
      (omega arith)

-- The first update of an analyzer of setup and hold.
abbrev first : IncrAnalyzer (Tables extended × Tables extended)
first = record {
  graph_walker = new_walk (new_tables extended 2 1, new_tables extended 2 1);
  never_updated = true;
}

first-IsReady : IsReady levelled 2 first.graph_walker
first-IsReady = record {
  invalidated = λ e. rw (is_marked-none e) refl;
  arr_range = λ l out. refl;
  req_range = λ l out. refl;
  arr_in = omega arith;
  req_in = omega arith;
}

update_incremental-Ends_example :
    Ends
      (λ a'. IsReady levelled 2 a'.graph_walker × (a'.never_updated ≡ false))
      (update_incremental extended levelled clocks unit_delays (setup_hold_visitor extended) first)
update_incremental-Ends_example =
    update_incremental-Ends extended (setup_hold_visitor extended)
      (setup_hold_visitor-Finishes extended) levelled 2 levelled-HasLevels clocks unit_delays first
      first-IsReady

-- Full updates, from tables without tags.
abbrev start : Walk (Tables extended)
start = record {
  tables = new_tables extended 2 1;
  num_unconstrained_startpoints = 0;
  num_unconstrained_endpoints = 0;
  nodes_modified = [];
}

abbrev value : {A : Type 0} → Result A → A → A
value (err fault) otherwise = otherwise
value (ok a) otherwise = a

abbrev both_start : Walk (Tables extended × Tables extended)
both_start = record {
  tables = (new_tables extended 2 1, new_tables extended 2 1);
  num_unconstrained_startpoints = 0;
  num_unconstrained_endpoints = 0;
  nodes_modified = [];
}

abbrev setup_end : Walk (Tables extended)
setup_end = value (update_setup_timing extended levelled clocks unit_delays start) start

abbrev hold_end : Walk (Tables extended)
hold_end = value (update_hold_timing extended levelled clocks unit_delays start) start

setup_run : update_setup_timing extended levelled clocks unit_delays start ≡ ok setup_end
unfolding update_setup_timing Walker.update_timing Walker.do_reset Walker.do_arrival_pre_traversal
    Walker.do_required_pre_traversal Walker.do_arrival_traversal Walker.do_required_traversal
    Walker.do_update_slack Walker.each_level Walker.each_node Walker.count_unconstrained
    tatum.Analysis.reset_node tatum.Analysis.reset_edge
    tatum.Analysis.Arrival.do_arrival_pre_traverse_node tatum.Graph.node_num_active_in_edges
    tatum.Constraints.Io.node_is_constant_generator tatum.Constraints.node_is_clock_source
    tatum.Constraints.Io.input_constraints tatum.Analysis.Arrival.do_arrival_traverse_node
    tatum.Analysis.Guards.should_propagate_clocks
    tatum.Analysis.Guards.should_propagate_clock_launch_tags tatum.Tags.tags_of tatum.Tags.clear
    tatum.Analysis.Guards.should_propagate_clock_capture_tags
    tatum.Analysis.Guards.is_clock_data_launch_edge tatum.Analysis.Guards.should_propagate_data
    tatum.Analysis.Sink.mark_sink_required_times tatum.Graph.node_clock_capture_edge
    tatum.Constraints.Io.node_clock_domain tatum.Analysis.Required.do_required_traverse_node
    tatum.Analysis.Slack.do_slack_traverse_node tatum.Analysis.Setup.max_delay
setup_run = refl

hold_run : update_hold_timing extended levelled clocks unit_delays start ≡ ok hold_end
unfolding update_hold_timing Walker.update_timing tatum.Analysis.reset_node
    tatum.Analysis.reset_edge tatum.Analysis.Arrival.do_arrival_pre_traverse_node
    tatum.Graph.node_num_active_in_edges tatum.Constraints.Io.node_is_constant_generator
    tatum.Constraints.node_is_clock_source tatum.Constraints.Io.input_constraints
    tatum.Analysis.Arrival.do_arrival_traverse_node tatum.Analysis.Guards.should_propagate_clocks
    tatum.Analysis.Guards.should_propagate_clock_launch_tags tatum.Tags.tags_of tatum.Tags.clear
    tatum.Analysis.Guards.should_propagate_clock_capture_tags
    tatum.Analysis.Guards.is_clock_data_launch_edge tatum.Analysis.Guards.should_propagate_data
    tatum.Analysis.Sink.mark_sink_required_times tatum.Graph.node_clock_capture_edge
    tatum.Constraints.Io.node_clock_domain tatum.Analysis.Required.do_required_traverse_node
    tatum.Analysis.Slack.do_slack_traverse_node tatum.Analysis.Hold.min_delay
hold_run = refl

update_timing-eq-separate_example :
    Returns
      (λ w'. w'.tables ≡ (setup_end.tables, hold_end.tables))
      (update_timing extended levelled clocks unit_delays both_start)
update_timing-eq-separate_example =
    update_timing-eq-separate extended levelled clocks unit_delays start setup_end start hold_end
      both_start refl setup_run hold_run

abbrev short_path : TimingPathInfo extended
short_path = record {
  path_type = TimingType.setup;
  delay = finite 3;
  path_slack = finite 4;
  startpoint = none;
  endpoint = some 1;
  launch_domain = some 0;
  capture_domain = some 1;
}

abbrev long_path : TimingPathInfo extended
long_path = record short_path { delay = finite 6; path_slack = finite 1; endpoint = some 2 }

record_path-best_example :
    best extended (record_path extended long_path (short_path ∷ [])) (some 0) (some 1)
    ≡ some long_path
record_path-best_example = record_path-best extended long_path (short_path ∷ []) (some 0) (some 1)
