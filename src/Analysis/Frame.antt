-- ===== src/Analysis/Frame.antt =====
-- What the arrival traversal of a node (graph_visitors/CommonAnalysisVisitor.hpp) leaves as it was.
use tatum.Prelude.{
  subst, length, ◌==◌, Bool-cases, inl, inr, ℕ, ◌≡◌, ◌≢◌, refl, ap, ◌∙◌, Bool, true, false, none,
  some, List, ◌∷◌, arith, get_elem?, ltb, get_elem?-set, ◌&&◌,
}
use tatum.Result.{Result, ok, check, ◌>>=◌, ◌>>◌, for_each}
use tatum.Result.OnOk.{
  OnOk, OnOk-check, OnOk-if, OnOk-branch, OnOk-bind, OnOk-after, OnOk-empty, OnOk-for_each,
}
use tatum.Container.{StrongId, at, store, is_valid, same_id}
use tatum.Time.{Float, valid}
use tatum.Graph.{
  TimingGraph, NodeId, EdgeId, node_in_edges, node_type, edge_disabled, edge_src_node,
  same_node_type, sink, node_clock_capture_edge,
}
use tatum.Tags.{TimingTags}
use tatum.Tags.Tag.{TimingTag, TagType, DomainId, data_arrival, clock_launch, clock_capture}
use tatum.Constraints.{TimingConstraints, should_analyze}
use tatum.Constraints.Io.{node_clock_domain}
use tatum.Analysis.{
  DelayCalculator, AnalysisOps, Tables, Step, in_node, each_tag, both, skip, get_tags, also,
}
use tatum.Analysis.Guards.{
  is_clock_data_launch_edge, should_propagate_clock_launch_tags,
  should_propagate_clock_capture_tags, should_propagate_data, should_propagate_clocks,
}
use tatum.Analysis.Arrival.{
  merge_arr_tags, propagate, guarded, do_arrival_traverse_edge, arrival_round,
  do_arrival_traverse_node,
}
use tatum.Analysis.Sink.{
  merge_req_tags, launch_domain_of, require, capture_data, capture_at, output_data, output_at,
  mark_sink_required_times,
}

-- Only the tags of one node differ.
pub record DiffersAt {F : Float} (node : NodeId) (before after : Tables F) : Type 0 where
  pub others : (j : ℕ) → node ≢ some j → get_elem? after.node_tags j ≡ get_elem? before.node_tags j
  pub node_slacks : after.node_slacks ≡ before.node_slacks
  pub edge_slacks : after.edge_slacks ≡ before.edge_slacks

abbrev SameBut : {V : Type 0} → StrongId → List V → List V → Type 0
SameBut id vec vec' = (j : ℕ) → id ≢ some j → get_elem? vec' j ≡ get_elem? vec j

store-SameBut :
    {V : Type 0} (vec : List V) (id : StrongId) (v : V) → OnOk (SameBut id vec) (store vec id v)
store-SameBut vec none v = tt
store-SameBut vec (some i) v =
    OnOk-if (SameBut (some i) vec) (ltb i (length vec)) _ _
      (λ j other. elim (Bool-cases (i == j)) [
        | inl same ↦ let is_j : i ≡ j = ground (arith, same) in absurd (other (ap some is_j))
        | inr apart ↦ get_elem?-set vec i j v ∙ rw apart refl
      ])
      tt

module _ (F : Float) (node : NodeId) (before : Tables F) where
  abbrev Kept : Step F → Type 0
  Kept r = DiffersAt node before r.1

  -- A part of the traversal that writes to the tags of the node only.
  abbrev Keeps : (Tables F → Result (Step F)) → Type 0
  Keeps run = (s : Tables F) → DiffersAt node before s → OnOk Kept (run s)

  in_node-Keeps :
      (run : TimingTags F → Result (Bool × TimingTags F)) → Keeps (λ s. in_node F s node run)
  in_node-Keeps run s h =
      OnOk-bind (λ r. SameBut node s.node_tags r.1) Kept _ _
        (OnOk-after (λ r. SameBut node s.node_tags r.1) (at s.node_tags node) _
          (λ t.
            OnOk-after (λ r. SameBut node s.node_tags r.1) (run t) _
              (λ r.
                OnOk-bind (SameBut node s.node_tags) (λ r'. SameBut node s.node_tags r'.1)
                  (store s.node_tags node r.1) _ (store-SameBut s.node_tags node r.1)
                  (λ table same. same))))
        (λ r same. record {
          others = λ j other. same j other ∙ h.others j other;
          node_slacks = h.node_slacks;
          edge_slacks = h.edge_slacks;
        })

  each_tag-Keeps :
      (tags : List (TimingTag F)) (run : TimingTag F → Tables F → Result (Step F))
      → ((tag : TimingTag F) → Keeps (run tag))
      → Keeps (each_tag F tags run)
  unfolding each_tag
  each_tag-Keeps tags run k s h =
      OnOk-for_each Kept tags (false, s) (λ tag. also F (run tag)) h
        (λ tag t h'. OnOk-bind Kept Kept (run tag t.1) _ (k tag t.1 h') (λ r h''. h''))

  both-Keeps :
      (first second : Tables F → Result (Step F))
      → Keeps first
      → Keeps second
      → Keeps (both F first second)
  both-Keeps first second k l s h =
      OnOk-bind Kept Kept (first s) _ (k s h)
        (λ r h'. OnOk-bind Kept Kept (second r.1) _ (l r.1 h') (λ q h''. h''))

  module _ (ops : AnalysisOps F) where
    guarded-Keeps :
        (guard : Result Bool) (run : Tables F → Result (Step F))
        → Keeps run
        → Keeps (guarded F ops guard run)
    guarded-Keeps guard run k s h =
        OnOk-after Kept guard _ (λ b. OnOk-if Kept b (run s) (skip F s) (k s h) h)

    merge_arr_tags-Keeps :
        (time : F.Scalar) (origin : NodeId) (tag : TimingTag F)
        → Keeps (merge_arr_tags F ops node time origin tag)
    unfolding merge_arr_tags
    merge_arr_tags-Keeps time origin tag = in_node-Keeps (λ t. ops.merge_arr t time origin tag)

    propagate-Keeps :
        (delay_of : Result F.Scalar) (type : TagType) (retag : TimingTag F → TimingTag F)
        (origin from : NodeId)
        → Keeps (propagate F ops delay_of type retag origin from node)
    unfolding propagate
    propagate-Keeps delay_of type retag origin from s h =
        OnOk-after Kept (get_tags F s from type) _ (λ tags.
          OnOk-empty Kept tags _ _ h (λ first rest. OnOk-after Kept delay_of _ (λ delay.
            each_tag-Keeps (first ∷ rest) _
              (λ tag. merge_arr_tags-Keeps (F.add tag.time delay) origin (retag tag)) s h)))

    require-Keeps :
        (req_time : F.Scalar) (launch capture : DomainId)
        → Keeps (require F ops node req_time launch capture)
    unfolding require merge_req_tags
    require-Keeps req_time launch capture = in_node-Keeps _

    module _ (tc : TimingConstraints F) where
      -- A required tag that is made only if a test holds.
      required-Keeps :
          (analyze : Bool) (data_tag : TimingTag F) (req_time : F.Scalar)
          (launch capture : DomainId)
          → Keeps (λ s. elim analyze [
            | false ↦ skip F s
            | true ↦ do check (valid F data_tag.time); require F ops node req_time launch capture s
          ])
      required-Keeps analyze data_tag req_time launch capture s h =
          OnOk-branch Kept analyze
            (check (valid F data_tag.time) >> require F ops node req_time launch capture s)
            (skip F s)
            (OnOk-check Kept (valid F data_tag.time) (require F ops node req_time launch capture s)
              (require-Keeps req_time launch capture s h))
            h

      capture_data-Keeps :
          (delay : F.Scalar) (clock_tag data_tag : TimingTag F)
          → Keeps (capture_data F ops tc node delay clock_tag data_tag)
      unfolding capture_data
      capture_data-Keeps delay clock_tag data_tag s h =
          let launch = launch_domain_of F ops data_tag clock_tag.capture_clock_domain in
          let capture = clock_tag.capture_clock_domain in
          let offset =
            F.sub (ops.clock_constraint tc launch capture node)
              (ops.clock_constraint tc launch capture none) in
          let req_time =
            F.add (F.add (F.add clock_tag.time offset) delay)
              (ops.clock_uncertainty tc launch capture) in
          OnOk-after Kept (should_analyze F tc launch capture node) _ (λ analyze.
            required-Keeps (same_id launch clock_tag.launch_clock_domain && analyze) data_tag
              req_time launch capture s h)

      output_data-Keeps :
          (domain : DomainId) (constraint latency : F.Scalar) (data_tag : TimingTag F)
          → Keeps (output_data F ops tc node domain constraint latency data_tag)
      unfolding output_data
      output_data-Keeps domain constraint latency data_tag s h =
          let launch = launch_domain_of F ops data_tag domain in
          let period = ops.clock_constraint tc launch domain node in
          let req_time =
            F.add (F.add (F.add period latency) constraint)
              (ops.clock_uncertainty tc launch domain) in
          OnOk-after Kept (should_analyze F tc launch domain node) _
            (λ analyze. required-Keeps analyze data_tag req_time launch domain s h)

      capture_at-Keeps :
          (delay : F.Scalar) (clock_tags data_tags : List (TimingTag F))
          → Keeps (capture_at F ops tc node delay clock_tags data_tags)
      unfolding capture_at
      capture_at-Keeps delay clock_tags data_tags =
          each_tag-Keeps clock_tags
            (λ clock_tag. each_tag F data_tags (capture_data F ops tc node delay clock_tag))
            (λ clock_tag.
              each_tag-Keeps data_tags (capture_data F ops tc node delay clock_tag)
                (λ data_tag. capture_data-Keeps delay clock_tag data_tag))

      output_at-Keeps : (data_tags : List (TimingTag F)) → Keeps (output_at F ops tc node data_tags)
      unfolding output_at
      output_at-Keeps data_tags s h = OnOk-after Kept (node_clock_domain F tc node) _ (λ domain.
          let constraint = F.neg (ops.output_constraint tc node domain) in
          let latency = ops.capture_source_latency tc domain in
          OnOk-if Kept (is_valid domain && valid F constraint)
            (each_tag F data_tags (output_data F ops tc node domain constraint latency) s)
            (skip F s)
            (each_tag-Keeps data_tags (output_data F ops tc node domain constraint latency)
              (λ data_tag. output_data-Keeps domain constraint latency data_tag) s h)
            h)

      mark_sink_required_times-Keeps :
          (tg : TimingGraph) (dc : DelayCalculator F)
          → Keeps (mark_sink_required_times F ops tg tc dc node)
      unfolding mark_sink_required_times
      mark_sink_required_times-Keeps tg dc s h = OnOk-after Kept (node_type tg node) _ (λ type.
          OnOk-check Kept (same_node_type type sink) _ (
            OnOk-after Kept (get_tags F s node data_arrival) _ (λ data_tags.
              OnOk-after Kept (node_clock_capture_edge tg node) _ (λ edge.
                OnOk-branch Kept (is_valid edge)
                  (edge_src_node tg edge >>= λ from.
                    get_tags F s from clock_capture >>= λ clock_tags.
                    ops.capture_clock_edge_delay dc tg edge >>= λ delay.
                    capture_at F ops tc node delay clock_tags data_tags s)
                  (output_at F ops tc node data_tags s)
                  (OnOk-after Kept (edge_src_node tg edge) _ (λ from.
                    OnOk-after Kept (get_tags F s from clock_capture) _ (λ clock_tags.
                      OnOk-after Kept (ops.capture_clock_edge_delay dc tg edge) _
                        (λ delay. capture_at-Keeps delay clock_tags data_tags s h))))
                  (output_at-Keeps data_tags s h)))))

      module _ (tg : TimingGraph) (dc : DelayCalculator F) where
        do_arrival_traverse_edge-Keeps :
            (e : EdgeId) → Keeps (do_arrival_traverse_edge F ops tg tc dc node e)
        unfolding do_arrival_traverse_edge
        do_arrival_traverse_edge-Keeps e s h = OnOk-after Kept (edge_src_node tg e) _ (λ from.
            let launch_delay = ops.launch_clock_edge_delay dc tg e in
            let capture_delay = ops.capture_clock_edge_delay dc tg e in
            let data_delay = ops.data_edge_delay dc tg e in
            let retype : TimingTag F → TimingTag F = λ tag. record tag { type = data_arrival } in
            let launch = propagate F ops launch_delay clock_launch (λ tag. tag) from from node in
            let capture = propagate F ops capture_delay clock_capture (λ tag. tag) from from node in
            let convert = propagate F ops launch_delay clock_launch retype none from node in
            let data_tags = propagate F ops data_delay data_arrival (λ tag. tag) from from node in
            let on_launch = should_propagate_clock_launch_tags tg e in
            let on_capture = should_propagate_clock_capture_tags tg e in
            let on_clocks = should_propagate_clocks F tg tc e in
            let on_convert = is_clock_data_launch_edge tg e in
            let on_data = should_propagate_data tg e in
            let clocks =
              both F (guarded F ops on_launch launch) (guarded F ops on_capture capture) in
            both-Keeps (guarded F ops on_clocks clocks)
              (both F (guarded F ops on_convert convert) (guarded F ops on_data data_tags))
              (guarded-Keeps on_clocks clocks (
                both-Keeps (guarded F ops on_launch launch) (guarded F ops on_capture capture)
                  (guarded-Keeps on_launch launch
                    (propagate-Keeps launch_delay clock_launch (λ tag. tag) from from))
                  (guarded-Keeps on_capture capture
                    (propagate-Keeps capture_delay clock_capture (λ tag. tag) from from))))
              (both-Keeps (guarded F ops on_convert convert) (guarded F ops on_data data_tags)
                (guarded-Keeps on_convert convert
                  (propagate-Keeps launch_delay clock_launch retype none from))
                (guarded-Keeps on_data data_tags
                  (propagate-Keeps data_delay data_arrival (λ tag. tag) from from)))
              s h)

        do_arrival_traverse_node-Keeps : Keeps (do_arrival_traverse_node F ops tg tc dc node)
        unfolding do_arrival_traverse_node arrival_round
        do_arrival_traverse_node-Keeps s h = OnOk-after Kept (node_in_edges tg node) _ (λ es.
            OnOk-bind Kept Kept (for_each es (false, s) (arrival_round F ops tg tc dc node)) _
              (OnOk-for_each Kept es (false, s) (arrival_round F ops tg tc dc node) h
                (λ e t h'. OnOk-after Kept (edge_disabled tg e) _ (λ disabled.
                  OnOk-if Kept disabled _ _ h' (
                    OnOk-bind Kept Kept (do_arrival_traverse_edge F ops tg tc dc node e t.1) _
                      (do_arrival_traverse_edge-Keeps e t.1 h') (λ r h''. h'')))))
              (λ pulled h'. OnOk-after Kept (node_type tg node) _ (λ type.
                OnOk-if Kept (same_node_type type sink) _ _
                  (OnOk-bind Kept Kept (mark_sink_required_times F ops tg tc dc node pulled.1) _
                    (mark_sink_required_times-Keeps tg dc pulled.1 h') (λ r h''. h''))
                  h')))

-- When the arrival traversal of a node returns, for a setup or a hold analysis or any other operations, the tags of all
-- other nodes and all slacks are what they were.
pub do_arrival_traverse_node-DiffersAt :
    (F : Float) (ops : AnalysisOps F) (tg : TimingGraph) (tc : TimingConstraints F)
    (dc : DelayCalculator F) (node : NodeId) (s s' : Tables F) (modified : Bool)
    → do_arrival_traverse_node F ops tg tc dc node s ≡ ok (modified, s')
    → DiffersAt node s s'
do_arrival_traverse_node-DiffersAt F ops tg tc dc node s s' modified run =
    subst (OnOk (λ r. DiffersAt node s r.1)) run (
      do_arrival_traverse_node-Keeps F node s ops tc tg dc s
        (record { others = λ j _. refl; node_slacks = refl; edge_slacks = refl }))
