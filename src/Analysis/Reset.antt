-- ===== src/Analysis/Reset.antt =====
-- libtatum/tatum/graph_visitors/CommonAnalysisVisitor.hpp: the resets of the tags of a node.
use tatum.Prelude.{none, List, [], ◌∷◌, if◌then◌else◌}
use tatum.Result.{Result, ok, ◌>>=◌, for_each}
use tatum.Container.{at, store, same_id}
use tatum.Time.{Float}
use tatum.Graph.{NodeId}
use tatum.Tags.{change_type, change_all}
use tatum.Tags.Tag.{TimingTag, TagType, clock_launch, clock_capture, data_arrival, data_required}
use tatum.Analysis.{AnalysisOps, Tables}

module _ (F : Float) (ops : AnalysisOps F) where
  -- set_origin_node(INVALID); set_time(time);
  abbrev pub invalidated : F.Scalar → TimingTag F → TimingTag F
  invalidated t tag = record tag { origin_node = none; time = t }

  -- The same, of a tag from a given origin.
  abbrev pub invalidated_from : NodeId → F.Scalar → TimingTag F → TimingTag F
  invalidated_from origin t tag = if same_id tag.origin_node origin then invalidated t tag else tag

  -- for(type : types) for(tag : get_mutable_tags(node_id, type)) change
  unfoldable pub change_tags :
      List TagType → (TimingTag F → TimingTag F) → NodeId → Tables F → Result (Tables F)
  change_tags types change node_id s = do
    t ← at s.node_tags node_id
    t' ← for_each types t (λ type. change_type F change type)
    table ← store s.node_tags node_id t'
    ok (record s { node_tags = table })

  abbrev pub arrival_types : List TagType
  arrival_types = clock_launch ∷ clock_capture ∷ data_arrival ∷ []

  unfoldable pub do_reset_node_arrival_tags : NodeId → Tables F → Result (Tables F)
  unfolding change_tags
  do_reset_node_arrival_tags node_id =
      change_tags arrival_types (invalidated ops.invalid_arrival_time) node_id

  unfoldable pub do_reset_node_required_tags : NodeId → Tables F → Result (Tables F)
  unfolding change_tags
  do_reset_node_required_tags node_id =
      change_tags (data_required ∷ []) (invalidated ops.invalid_required_time) node_id

  unfoldable pub do_reset_node_slack_tags : NodeId → Tables F → Result (Tables F)
  do_reset_node_slack_tags node_id s = do
    t ← at s.node_slacks node_id
    t' ← change_all F (invalidated F.infinity) t
    table ← store s.node_slacks node_id t'
    ok (record s { node_slacks = table })

  unfoldable pub do_reset_node_arrival_tags_from_origin :
      NodeId → NodeId → Tables F → Result (Tables F)
  unfolding change_tags
  do_reset_node_arrival_tags_from_origin node_id origin =
      change_tags arrival_types (invalidated_from origin ops.invalid_arrival_time) node_id

  unfoldable pub do_reset_node_required_tags_from_origin :
      NodeId → NodeId → Tables F → Result (Tables F)
  unfolding change_tags
  do_reset_node_required_tags_from_origin node_id origin =
      change_tags (data_required ∷ []) (invalidated_from origin ops.invalid_required_time) node_id
