-- ===== src/Analysis/Halts.antt =====
-- What libtatum/tatum/graph_visitors/CommonAnalysisVisitor.hpp is made of needs no fuel.
pub mod Pull
pub mod Sink
pub mod Visit
use tatum.Prelude.{ℕ, Bool, true, false, not, ◌&&◌, none, some, List, [], ◌∷◌, if◌then◌else◌}
use tatum.Result.{Result, ok, check, ◌>>=◌, ◌>>◌, for_each}
use tatum.Result.Halts.{
  Halts, Halts-ok, Halts-if, Halts-bind, Halts-branch, Halts-for_each, Halts-check, Halts-at,
  halts_rules,
}
use tatum.Container.{StrongId, at, same_id}
use tatum.Time.{Float}
use tatum.Graph.{
  TimingGraph, NodeId, EdgeId, EdgeType, node_num_active_in_edges, count_active_edges,
  first_of_type, node_clock_capture_edge, same_edge_type, same_node_type, sink, cpin, edge_type,
  edge_src_node, edge_sink_node, node_type,
}
use tatum.Tags.{TimingTags, clear}
use tatum.Tags
use tatum.Tags.Halts.{max-Halts, min-Halts, set_tag-Halts, tags_of-Halts, all_tags-Halts}
use tatum.Tags.Tag.{TimingTag, TagType, DomainId}
use tatum.Constraints.{
  TimingConstraints, should_analyze, node_is_clock_source, find_node_source_clock_domain,
  find_sourced,
}
use tatum.Constraints.Io.{node_clock_domain}
use tatum.Analysis.{
  DelayCalculator, AnalysisOps, Tables, Step, in_table, in_node, get_tags, set_node_tag,
  merge_node_slack, merge_edge_slack, reset_node, reset_edge, each_tag, also, ge,
}
use tatum.Analysis.Setup.{setup_ops, max_delay, setup_capture_delay}
use tatum.Analysis.Hold.{hold_ops, min_delay, hold_capture_delay}

-- The operations of an analysis that can fail.
pub record OpsHalt {F : Float} (ops : AnalysisOps F) : Type 0 where
  pub merge_req :
      (t : TimingTags F) (time : F.Scalar) (origin : StrongId) (tag : TimingTag F) (must : Bool)
      → Halts (ops.merge_req t time origin tag must)
  pub merge_arr :
      (t : TimingTags F) (time : F.Scalar) (origin : StrongId) (tag : TimingTag F)
      → Halts (ops.merge_arr t time origin tag)
  pub data_delay :
      (dc : DelayCalculator F) (tg : TimingGraph) (e : EdgeId) → Halts (ops.data_edge_delay dc tg e)
  pub launch_delay :
      (dc : DelayCalculator F) (tg : TimingGraph) (e : EdgeId)
      → Halts (ops.launch_clock_edge_delay dc tg e)
  pub capture_delay :
      (dc : DelayCalculator F) (tg : TimingGraph) (e : EdgeId)
      → Halts (ops.capture_clock_edge_delay dc tg e)

-- Searches of the graph.
count_active_edges-Halts : (tg : TimingGraph) (es : List EdgeId) → Halts (count_active_edges tg es)
unfolding count_active_edges
count_active_edges-Halts tg [] = search halts_rules
count_active_edges-Halts tg (e ∷ es) =
    Halts-bind (at tg.edges_disabled e) _ (Halts-at tg.edges_disabled e) (λ d.
      Halts-bind (count_active_edges tg es) _ (count_active_edges-Halts tg es) (λ rest. Halts-ok _))

pub active_in_edges-Halts :
    (tg : TimingGraph) (id : NodeId) → Halts (node_num_active_in_edges tg id)
unfolding node_num_active_in_edges
active_in_edges-Halts tg id = search (halts_rules, count_active_edges-Halts)

edge_type-Halts : (tg : TimingGraph) (e : EdgeId) → Halts (edge_type tg e)
edge_type-Halts tg e = search halts_rules

first_of_type-Halts :
    (tg : TimingGraph) (t : EdgeType) (es : List EdgeId) → Halts (first_of_type tg t es)
unfolding first_of_type
first_of_type-Halts tg t [] = search halts_rules
first_of_type-Halts tg t (e ∷ es) =
    Halts-bind (edge_type tg e) _ (edge_type-Halts tg e)
      (λ et. Halts-branch (same_edge_type et t) (ok e) _ (Halts-ok e) (first_of_type-Halts tg t es))

pub clock_capture_edge-Halts :
    (tg : TimingGraph) (id : NodeId) → Halts (node_clock_capture_edge tg id)
unfolding node_clock_capture_edge
clock_capture_edge-Halts tg id = Halts-bind (node_type tg id) _ (Halts-at tg.node_types id) (λ t.
    Halts-branch (same_node_type t sink) _ (ok none)
      (Halts-bind (at tg.node_in_edges id) _ (Halts-at tg.node_in_edges id)
        (first_of_type-Halts tg EdgeType.primitive_clock_capture))
      (Halts-ok none))

module _ (F : Float) where
  pub should_analyze-Halts :
      (tc : TimingConstraints F) (src snk : DomainId) (id : NodeId)
      → Halts (should_analyze F tc src snk id)
  unfolding should_analyze
  should_analyze-Halts tc src snk id = search halts_rules

  find_sourced-Halts :
      (tc : TimingConstraints F) (id : NodeId) (ids : List DomainId)
      → Halts (find_sourced F tc id ids)
  unfolding find_sourced
  find_sourced-Halts tc id [] = Halts-ok none
  find_sourced-Halts tc id (d ∷ ds) =
      Halts-bind (at tc.domain_sources d) _ (Halts-at tc.domain_sources d) (λ found.
        Halts-branch (same_id found id) (ok d) _ (Halts-ok d) (find_sourced-Halts tc id ds))

  source_domain-Halts :
      (tc : TimingConstraints F) (id : NodeId) → Halts (find_node_source_clock_domain F tc id)
  unfolding find_node_source_clock_domain
  source_domain-Halts tc id = find_sourced-Halts tc id tc.domain_ids

  pub node_clock_domain-Halts :
      (tc : TimingConstraints F) (id : NodeId) → Halts (node_clock_domain F tc id)
  unfolding node_clock_domain
  node_clock_domain-Halts tc id =
      Halts-bind (find_node_source_clock_domain F tc id) _ (source_domain-Halts tc id)
        (λ d. Halts-ok _)

  pub clock_source-Halts :
      (tc : TimingConstraints F) (id : NodeId) → Halts (node_is_clock_source F tc id)
  unfolding node_is_clock_source
  clock_source-Halts tc id =
      Halts-bind (find_node_source_clock_domain F tc id) _ (source_domain-Halts tc id)
        (λ d. Halts-ok _)

  -- The tables.
  pub in_node-Halts :
      (s : Tables F) (id : NodeId) (run : TimingTags F → Result (Bool × TimingTags F))
      → ((t : TimingTags F) → Halts (run t))
      → Halts (in_node F s id run)
  in_node-Halts s id run h = search halts_rules depth 9

  pub get_tags-Halts : (s : Tables F) (id : NodeId) (type : TagType) → Halts (get_tags F s id type)
  get_tags-Halts s id type = search (halts_rules, tags_of-Halts)

  pub set_node_tag-Halts :
      (id : NodeId) (tag : TimingTag F) (s : Tables F) → Halts (set_node_tag F id tag s)
  unfolding set_node_tag
  set_node_tag-Halts id tag s = in_node-Halts s id _ (λ t. set_tag-Halts F t tag)

  pub merge_node_slack-Halts :
      (id : NodeId) (time : F.Scalar) (tag : TimingTag F) (s : Tables F)
      → Halts (merge_node_slack F id time tag s)
  unfolding merge_node_slack
  merge_node_slack-Halts id time tag s = search (halts_rules, min-Halts) depth 9

  pub merge_edge_slack-Halts :
      (id : EdgeId) (time : F.Scalar) (tag : TimingTag F) (s : Tables F)
      → Halts (merge_edge_slack F id time tag s)
  unfolding merge_edge_slack
  merge_edge_slack-Halts id time tag s = search (halts_rules, min-Halts) depth 9

  pub reset_node-Halts : (id : NodeId) (s : Tables F) → Halts (reset_node F id s)
  unfolding reset_node
  reset_node-Halts id s = search halts_rules depth 9

  pub reset_edge-Halts : (id : EdgeId) (s : Tables F) → Halts (reset_edge F id s)
  unfolding reset_edge
  reset_edge-Halts id s = search halts_rules depth 9

  pub each_tag-Halts :
      (tags : List (TimingTag F)) (run : TimingTag F → Tables F → Result (Step F))
      → ((tag : TimingTag F) (s : Tables F) → Halts (run tag s))
      → (s : Tables F) → Halts (each_tag F tags run s)
  unfolding each_tag
  each_tag-Halts tags run h s =
      Halts-for_each tags (false, s) (λ tag. also F (run tag))
        (λ tag t. Halts-bind (run tag t.1) _ (h tag t.1) (λ r. Halts-ok _))

  max_delay-Halts :
      (dc : DelayCalculator F) (tg : TimingGraph) (e : EdgeId) → Halts (max_delay F dc tg e)
  unfolding max_delay
  max_delay-Halts dc tg e = search halts_rules

  min_delay-Halts :
      (dc : DelayCalculator F) (tg : TimingGraph) (e : EdgeId) → Halts (min_delay F dc tg e)
  unfolding min_delay
  min_delay-Halts dc tg e = search halts_rules

  -- The first reads of the capture delays.
  at_ends :
      {A : Type 0} (tg : TimingGraph) (e : EdgeId) (yes_ : Result A) (no_ : Result A)
      → Halts yes_
      → Halts no_
      → Halts (do
        src_node ← edge_src_node tg e
        sink_node ← edge_sink_node tg e
        src_type ← node_type tg src_node
        sink_type ← node_type tg sink_node
        elim (same_node_type src_type cpin && same_node_type sink_type sink) [
          | true ↦ yes_
          | false ↦ no_
        ])
  at_ends tg e yes_ no_ h k = Halts-bind (edge_src_node tg e) _ (Halts-at _ e) (λ src.
      Halts-bind (edge_sink_node tg e) _ (Halts-at _ e) (λ snk.
        Halts-bind (node_type tg src) _ (Halts-at _ src) (λ src_type.
          Halts-bind (node_type tg snk) _ (Halts-at _ snk) (λ sink_type.
            Halts-branch (same_node_type src_type cpin && same_node_type sink_type sink) yes_ no_ h
              k))))

  pub setup_ops-OpsHalt : OpsHalt (setup_ops F)
  unfolding setup_capture_delay
  setup_ops-OpsHalt = record {
    merge_req = min-Halts F;
    merge_arr = λ t time origin tag. max-Halts F t time origin tag false;
    data_delay = max_delay-Halts;
    launch_delay = max_delay-Halts;
    capture_delay = λ dc tg e.
        at_ends tg e _ (max_delay F dc tg e)
          (Halts-check (not (F.is_nan (dc.setup_time tg e))) _ (Halts-ok _))
          (max_delay-Halts dc tg e);
  }

  pub hold_ops-OpsHalt : OpsHalt (hold_ops F)
  unfolding hold_capture_delay
  hold_ops-OpsHalt = record {
    merge_req = max-Halts F;
    merge_arr = λ t time origin tag. min-Halts F t time origin tag false;
    data_delay = min_delay-Halts;
    launch_delay = min_delay-Halts;
    capture_delay = λ dc tg e.
        at_ends tg e _ (min_delay F dc tg e)
          (Halts-check (not (F.is_nan (dc.hold_time tg e))) _ (Halts-ok _))
          (min_delay-Halts dc tg e);
  }
