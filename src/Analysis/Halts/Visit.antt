-- ===== src/Analysis/Halts/Visit.antt =====
-- The visitors of a setup and of a hold analysis in libtatum/tatum/ need no fuel.
use tatum.Prelude.{Bool, true, false, none, List, ◌∷◌}
use tatum.Result.{Result, ok}
use tatum.Result.Halts.{
  Halts, Halts-ok, Halts-if, Halts-bind, Halts-branch, Halts-empty, Halts-for_each, Halts-check,
  Halts-at, Halts→Ends, halts_rules,
}
use tatum.Container.{at}
use tatum.Time.{Float}
use tatum.Graph.{
  TimingGraph, NodeId, EdgeId, sink, cpin, same_node_type, edge_src_node, edge_sink_node, node_type,
  node_in_edges, node_out_edges, edge_disabled,
}
use tatum.Tags.{all_tags}
use tatum.Tags.Halts.{all_tags-Halts, change_type-Halts, change_all-Halts}
use tatum.Tags.Tag.{TimingTag, TagType, data_arrival, data_required}
use tatum.Constraints.{TimingConstraints}
use tatum.Analysis.{
  DelayCalculator, AnalysisOps, Tables, Step, get_tags, also, skip, merge_node_slack,
}
use tatum.Analysis.Guards.{
  is_clock_data_launch_edge, is_clock_data_capture_edge, should_calculate_slack,
}
use tatum.Analysis.Sink.{mark_sink_required_times}
use tatum.Analysis.Arrival.{do_arrival_traverse_edge, arrival_round, do_arrival_traverse_node}
use tatum.Analysis.Halts.{
  OpsHalt, get_tags-Halts, merge_node_slack-Halts, merge_edge_slack-Halts, reset_edge-Halts,
  each_tag-Halts, setup_ops-OpsHalt, hold_ops-OpsHalt,
}
use tatum.Analysis.Required.{
  do_required_pre_traverse_node, do_required_traverse_edge, required_round,
  do_required_traverse_node,
}
use tatum.Analysis.Slack.{slack_pairs, slack_delay, do_slack_traverse_edge, do_slack_traverse_node}
use tatum.Analysis.Reset.{
  change_tags, do_reset_node_arrival_tags, do_reset_node_required_tags, do_reset_node_slack_tags,
  do_reset_node_arrival_tags_from_origin, do_reset_node_required_tags_from_origin,
}
use tatum.Analysis.Visitor.{
  GraphVisitor, visitor_of, setup_visitor, hold_visitor, setup_hold_visitor, both_visitors,
  reset_both, traverse_both,
}
use tatum.Result.Ends.{Ends, Ends-bind}
use tatum.Analysis.IncrTraversal.Keep.{Finishes}
use tatum.Analysis.Halts.Pull.{
  launch_edge-Halts, capture_edge-Halts, launch_tags-Halts, capture_guard-Halts, data_guard-Halts,
  clocks_guard-Halts, both-Halts, guarded-Halts, propagate-Halts, arrival_pre-Halts,
}
use tatum.Analysis.Halts.Sink.{merge_req_tags-Halts, mark_sink-Halts}

module _ (F : Float) (ops : AnalysisOps F) (h : OpsHalt ops) where
  -- A further step.
  also-Halts :
      (run : Tables F → Result (Step F)) (s : Step F) → Halts (run s.1) → Halts (also F run s)
  also-Halts run s k = Halts-bind (run s.1) _ k (λ r. Halts-ok _)

  module _ (tg : TimingGraph) (dc : DelayCalculator F) where
    module _ (tc : TimingConstraints F) where
      arrival_edge-Halts :
          (id : NodeId) (e : EdgeId) (s : Tables F)
          → Halts (do_arrival_traverse_edge F ops tg tc dc id e s)
      unfolding do_arrival_traverse_edge
      arrival_edge-Halts id e s = Halts-bind (edge_src_node tg e) _ (Halts-at _ e) (λ src.
          both-Halts F ops h _ _
            (guarded-Halts F ops h _ _ (clocks_guard-Halts F tg tc e) (
              both-Halts F ops h _ _
                (guarded-Halts F ops h _ _ (launch_tags-Halts tg e)
                  (propagate-Halts F ops h _ _ _ src src id (h.launch_delay dc tg e)))
                (guarded-Halts F ops h _ _ (capture_guard-Halts tg e)
                  (propagate-Halts F ops h _ _ _ src src id (h.capture_delay dc tg e)))))
            (both-Halts F ops h _ _
              (guarded-Halts F ops h _ _ (launch_edge-Halts tg e)
                (propagate-Halts F ops h _ _ _ none src id (h.launch_delay dc tg e)))
              (guarded-Halts F ops h _ _ (data_guard-Halts tg e)
                (propagate-Halts F ops h _ _ _ src src id (h.data_delay dc tg e))))
            s)

      arrival_round-Halts :
          (id : NodeId) (e : EdgeId) (s : Step F) → Halts (arrival_round F ops tg tc dc id e s)
      unfolding arrival_round
      arrival_round-Halts id e s = Halts-bind (edge_disabled tg e) _ (Halts-at _ e) (λ disabled.
          Halts-if disabled (ok s) _ (Halts-ok s) (
            also-Halts (do_arrival_traverse_edge F ops tg tc dc id e) s
              (arrival_edge-Halts id e s.1)))

      arrival-Halts :
          (id : NodeId) (s : Tables F) → Halts (do_arrival_traverse_node F ops tg tc dc id s)
      unfolding do_arrival_traverse_node
      arrival-Halts id s = Halts-bind (node_in_edges tg id) _ (Halts-at _ id) (λ in_edges.
          Halts-bind _ _ (Halts-for_each in_edges (false, s) _ (arrival_round-Halts id)) (λ pulled.
            Halts-bind (node_type tg id) _ (Halts-at _ id) (λ type.
              Halts-if (same_node_type type sink) _ (ok pulled)
                (also-Halts (mark_sink_required_times F ops tg tc dc id) pulled
                  (mark_sink-Halts F ops h tg tc dc id pulled.1))
                (Halts-ok pulled))))

    required_edge-Halts :
        (id : NodeId) (e : EdgeId) (s : Tables F)
        → Halts (do_required_traverse_edge F ops tg dc id e s)
    unfolding do_required_traverse_edge
    required_edge-Halts id e s = Halts-bind (edge_sink_node tg e) _ (Halts-at _ e) (λ snk.
        Halts-bind (get_tags F s snk data_required) _ (get_tags-Halts F s snk data_required)
          (λ tags. Halts-empty tags (skip F s) _ (Halts-ok _) (λ first rest.
            Halts-bind (ops.data_edge_delay dc tg e) _ (h.data_delay dc tg e) (λ delay.
              each_tag-Halts F (first ∷ rest) _
                (λ tag t. merge_req_tags-Halts F ops h id (F.sub tag.time delay) snk tag true t)
                s))))

    required_round-Halts :
        (id : NodeId) (e : EdgeId) (s : Step F) → Halts (required_round F ops tg dc id e s)
    unfolding required_round
    required_round-Halts id e s = Halts-bind (edge_disabled tg e) _ (Halts-at _ e) (λ disabled.
        Halts-if disabled (ok s) _ (Halts-ok s) (
          also-Halts (do_required_traverse_edge F ops tg dc id e) s (required_edge-Halts id e s.1)))

    required-Halts :
        (id : NodeId) (s : Tables F) → Halts (do_required_traverse_node F ops tg dc id s)
    unfolding do_required_traverse_node
    required-Halts id s = Halts-bind (node_type tg id) _ (Halts-at _ id) (λ type.
        Halts-branch (same_node_type type cpin) (skip F s) _ (Halts-ok _) (
          Halts-bind (node_out_edges tg id) _ (Halts-at _ id)
            (λ out_edges. Halts-for_each out_edges (false, s) _ (required_round-Halts id))))

    slack_pairs-Halts :
        (arr_tags req_tags : List (TimingTag F))
        (merge : TimingTag F → TimingTag F → Tables F → Result (Step F))
        → ((a r : TimingTag F) (t : Tables F) → Halts (merge a r t))
        → (s : Tables F) → Halts (slack_pairs F ops arr_tags req_tags merge s)
    unfolding slack_pairs
    slack_pairs-Halts arr_tags req_tags merge k s =
        each_tag-Halts F arr_tags _
          (λ arr_tag t.
            each_tag-Halts F req_tags _
              (λ req_tag u.
                Halts-if (should_calculate_slack F arr_tag req_tag) _ (skip F u)
                  (k arr_tag req_tag u) (Halts-ok _))
              t)
          s

    slack_delay-Halts : (e : EdgeId) → Halts (slack_delay F ops dc tg e)
    unfolding slack_delay
    slack_delay-Halts e =
        Halts-bind (is_clock_data_launch_edge tg e) _ (launch_edge-Halts tg e) (λ launch.
          Halts-branch launch _ _ (h.launch_delay dc tg e) (
            Halts-bind (is_clock_data_capture_edge tg e) _ (capture_edge-Halts tg e) (λ capture.
              Halts-branch capture _ _ (h.capture_delay dc tg e) (h.data_delay dc tg e))))

    slack_edge-Halts : (e : EdgeId) (s : Tables F) → Halts (do_slack_traverse_edge F ops tg dc e s)
    unfolding do_slack_traverse_edge
    slack_edge-Halts e s = Halts-bind (edge_src_node tg e) _ (Halts-at _ e) (λ src.
        Halts-bind (edge_sink_node tg e) _ (Halts-at _ e) (λ snk.
          Halts-bind (get_tags F s src data_arrival) _ (get_tags-Halts F s src data_arrival)
            (λ arr_tags.
              Halts-bind (get_tags F s snk data_required) _ (get_tags-Halts F s snk data_required)
                (λ req_tags.
                  Halts-bind (slack_delay F ops dc tg e) _ (slack_delay-Halts e) (λ delay.
                    slack_pairs-Halts arr_tags req_tags _
                      (λ a r t. merge_edge_slack-Halts F e _ r t) s)))))

    slack-Halts : (id : NodeId) (s : Tables F) → Halts (do_slack_traverse_node F ops tg dc id s)
    unfolding do_slack_traverse_node
    slack-Halts id s = Halts-bind (node_in_edges tg id) _ (Halts-at _ id) (λ in_edges.
        Halts-bind _ _
          (Halts-for_each in_edges (false, s) _
            (λ e t. also-Halts (do_slack_traverse_edge F ops tg dc e) t (slack_edge-Halts e t.1)))
          (λ edges.
            Halts-bind (get_tags F edges.1 id data_arrival) _
              (get_tags-Halts F edges.1 id data_arrival)
              (λ arr_tags.
                Halts-bind (get_tags F edges.1 id data_required) _
                  (get_tags-Halts F edges.1 id data_required)
                  (λ req_tags.
                    let merge : TimingTag F → TimingTag F → Tables F → Result (Step F) =
                      λ a r. merge_node_slack F id (ops.calculate_slack r.time a.time) r in
                    also-Halts (slack_pairs F ops arr_tags req_tags merge) edges (
                      slack_pairs-Halts arr_tags req_tags merge
                        (λ a r t.
                          merge_node_slack-Halts F id (ops.calculate_slack r.time a.time) r t)
                        edges.1)))))

  required_pre-Halts :
      (tg : TimingGraph) (id : NodeId) (s : Tables F)
      → Halts (do_required_pre_traverse_node F ops tg id s)
  unfolding do_required_pre_traverse_node
  required_pre-Halts tg id s = Halts-bind (node_type tg id) _ (Halts-at _ id) (λ type.
      Halts-check (same_node_type type sink) _ (
        Halts-bind (at s.node_tags id) _ (Halts-at _ id)
          (λ t. Halts-bind (all_tags F t) _ (all_tags-Halts F t) (λ tags. Halts-ok _))))

  change_tags-Halts :
      (types : List TagType) (change : TimingTag F → TimingTag F) (id : NodeId) (s : Tables F)
      → Halts (change_tags F ops types change id s)
  unfolding change_tags
  change_tags-Halts types change id s = Halts-bind (at s.node_tags id) _ (Halts-at _ id) (λ t.
      Halts-bind _ _ (Halts-for_each types t _ (λ type u. change_type-Halts F change type u))
        (λ t'. search halts_rules))

  reset_slack-Halts : (id : NodeId) (s : Tables F) → Halts (do_reset_node_slack_tags F ops id s)
  unfolding do_reset_node_slack_tags
  reset_slack-Halts id s = search (halts_rules, change_all-Halts) depth 9

  -- The common visitor, over the operations of an analysis that need no fuel themselves.
  visitor_of-Finishes : Finishes (visitor_of F ops)
  unfolding do_reset_node_arrival_tags do_reset_node_required_tags
      do_reset_node_arrival_tags_from_origin do_reset_node_required_tags_from_origin
  visitor_of-Finishes = record {
    reset_edge = λ id s. Halts→Ends _ (reset_edge-Halts F id s);
    reset_arrival = λ id s. Halts→Ends _ (change_tags-Halts _ _ id s);
    reset_required = λ id s. Halts→Ends _ (change_tags-Halts _ _ id s);
    reset_slack = λ id s. Halts→Ends _ (reset_slack-Halts id s);
    reset_arrival_from = λ id origin s. Halts→Ends _ (change_tags-Halts _ _ id s);
    reset_required_from = λ id origin s. Halts→Ends _ (change_tags-Halts _ _ id s);
    arrival_pre = λ tg tc id s. Halts→Ends _ (arrival_pre-Halts F ops h tg tc id s);
    required_pre = λ tg tc id s.
        Halts→Ends _ (Halts-bind _ _ (required_pre-Halts tg id s) (λ constrained. Halts-ok _));
    arrival = λ tg tc dc id s. Halts→Ends _ (arrival-Halts tg dc tc id s);
    required = λ tg tc dc id s. Halts→Ends _ (required-Halts tg dc id s);
    slack = λ tg dc id s. Halts→Ends _ (slack-Halts tg dc id s);
  }

pub setup_visitor-Finishes : (F : Float) → Finishes (setup_visitor F)
setup_visitor-Finishes F = visitor_of-Finishes F _ (setup_ops-OpsHalt F)

pub hold_visitor-Finishes : (F : Float) → Finishes (hold_visitor F)
hold_visitor-Finishes F = visitor_of-Finishes F _ (hold_ops-OpsHalt F)

module _ (F : Float) {S T : Type 0} where
  reset_both-Ends :
      (setup : S → Result S) (hold : T → Result T)
      → ((s : S) → Ends (λ s'. Unit {0}) (setup s))
      → ((t : T) → Ends (λ t'. Unit {0}) (hold t))
      → (p : S × T) → Ends (λ p'. Unit {0}) (reset_both F setup hold p)
  reset_both-Ends setup hold k l p =
      Ends-bind (λ s'. Unit {0}) (λ p'. Unit {0}) (setup p.0) _ (k p.0)
        (λ s' u. Ends-bind (λ t'. Unit {0}) (λ p'. Unit {0}) (hold p.1) _ (l p.1) (λ t' v. tt))

  traverse_both-Ends :
      (setup : S → Result (Bool × S)) (hold : T → Result (Bool × T))
      → ((s : S) → Ends (λ r. Unit {0}) (setup s))
      → ((t : T) → Ends (λ r. Unit {0}) (hold t))
      → (p : S × T) → Ends (λ r. Unit {0}) (traverse_both F setup hold p)
  traverse_both-Ends setup hold k l p =
      Ends-bind (λ r. Unit {0}) (λ r. Unit {0}) (setup p.0) _ (k p.0)
        (λ r u. Ends-bind (λ q. Unit {0}) (λ r'. Unit {0}) (hold p.1) _ (l p.1) (λ q v. tt))

  pub both_visitors-Finishes :
      (a : GraphVisitor F S) (b : GraphVisitor F T)
      → Finishes a
      → Finishes b
      → Finishes (both_visitors F a b)
  both_visitors-Finishes a b k l = record {
    reset_edge = λ id. reset_both-Ends _ _ (k.reset_edge id) (l.reset_edge id);
    reset_arrival = λ id. reset_both-Ends _ _ (k.reset_arrival id) (l.reset_arrival id);
    reset_required = λ id. reset_both-Ends _ _ (k.reset_required id) (l.reset_required id);
    reset_slack = λ id. reset_both-Ends _ _ (k.reset_slack id) (l.reset_slack id);
    reset_arrival_from =
        λ id o. reset_both-Ends _ _ (k.reset_arrival_from id o) (l.reset_arrival_from id o);
    reset_required_from =
        λ id o. reset_both-Ends _ _ (k.reset_required_from id o) (l.reset_required_from id o);
    arrival_pre =
        λ tg tc id. traverse_both-Ends _ _ (k.arrival_pre tg tc id) (l.arrival_pre tg tc id);
    required_pre =
        λ tg tc id. traverse_both-Ends _ _ (k.required_pre tg tc id) (l.required_pre tg tc id);
    arrival = λ tg tc dc id. traverse_both-Ends _ _ (k.arrival tg tc dc id) (l.arrival tg tc dc id);
    required =
        λ tg tc dc id. traverse_both-Ends _ _ (k.required tg tc dc id) (l.required tg tc dc id);
    slack = λ tg dc id. traverse_both-Ends _ _ (k.slack tg dc id) (l.slack tg dc id);
  }

pub setup_hold_visitor-Finishes : (F : Float) → Finishes (setup_hold_visitor F)
setup_hold_visitor-Finishes F =
    both_visitors-Finishes F (setup_visitor F) (hold_visitor F) (setup_visitor-Finishes F)
      (hold_visitor-Finishes F)
