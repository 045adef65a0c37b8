-- ===== src/Analysis/Analyzers.antt =====
-- libtatum/tatum/analyzers/: the updates of the analyzers, FullSetupTimingAnalyzer.hpp and its variants
-- with SerialWalker, IncrSetupTimingAnalyzer.hpp and its variants with SerialIncrWalker. The profiling
-- data is left out.
pub mod Ends
pub mod Full
use tatum.Prelude.{Bool, true, false, not}
use tatum.Result.{Result, ok, check, ◌>>=◌, ◌>>◌, for_each}
use tatum.Time.{Float}
use tatum.Graph.{TimingGraph}
use tatum.Constraints.{TimingConstraints}
use tatum.Analysis.{DelayCalculator, Tables}
use tatum.Analysis.Visitor.{
  GraphVisitor, setup_visitor, hold_visitor, setup_hold_visitor, setup_part, hold_part,
}
use tatum.Analysis.Walker
use tatum.Analysis.Walker.{Walk}
use tatum.Analysis.Incremental.{IncrWalk, invalidate_edge, clear_invalidated_edges}
use tatum.Analysis.IncrTraversal

module _ (F : Float) (tg : TimingGraph) (tc : TimingConstraints F) (dc : DelayCalculator F) where
  -- FullSetupTimingAnalyzer and FullHoldTimingAnalyzer
  unfoldable pub update_setup_timing : Walk (Tables F) → Result (Walk (Tables F))
  update_setup_timing = Walker.update_timing F (setup_visitor F) tg tc dc

  unfoldable pub update_hold_timing : Walk (Tables F) → Result (Walk (Tables F))
  update_hold_timing = Walker.update_timing F (hold_visitor F) tg tc dc

  -- FullSetupHoldTimingAnalyzer: both, or only one of them.
  pub update_timing : Walk (Tables F × Tables F) → Result (Walk (Tables F × Tables F))
  update_timing = Walker.update_timing F (setup_hold_visitor F) tg tc dc

  pub update_only_setup_timing : Walk (Tables F × Tables F) → Result (Walk (Tables F × Tables F))
  update_only_setup_timing = Walker.update_timing F (setup_part F) tg tc dc

  pub update_only_hold_timing : Walk (Tables F × Tables F) → Result (Walk (Tables F × Tables F))
  update_only_hold_timing = Walker.update_timing F (hold_part F) tg tc dc

-- An incremental analyzer: its walker, and whether it has never updated.
pub record IncrAnalyzer (S : Type 0) : Type 0 where
  pub graph_walker : IncrWalk S
  pub never_updated : Bool

module _ (F : Float) {S : Type 0} (tg : TimingGraph) (tc : TimingConstraints F) where
  module _ (dc : DelayCalculator F) (visitor : GraphVisitor F S) where
    -- What only the first update does before its arrival traversal, and before its required traversal.
    abbrev pub first_arrival : Bool → IncrWalk S → Result (IncrWalk S)
    first_arrival false w = ok w
    first_arrival true w = do
      invalid ← for_each tg.edge_ids w invalidate_edge
      IncrTraversal.do_arrival_pre_traversal F visitor tg tc invalid

    abbrev pub first_required : Bool → IncrWalk S → Result (IncrWalk S)
    first_required false w = ok w
    first_required true w = IncrTraversal.do_required_pre_traversal F visitor tg tc w

    -- The updates of IncrSetupTimingAnalyzer and IncrHoldTimingAnalyzer, with their visitors, and
    -- update_timing_impl of IncrSetupHoldTimingAnalyzer.
    pub update_incremental : IncrAnalyzer S → Result (IncrAnalyzer S)
    update_incremental a = do
      started ← first_arrival a.never_updated a.graph_walker
      arrived ← IncrTraversal.do_arrival_traversal F visitor tg tc dc started
      ended ← first_required a.never_updated arrived
      required ← IncrTraversal.do_required_traversal F visitor tg tc dc ended
      slacks ← IncrTraversal.do_update_slack F visitor tg dc required
      ok (record { graph_walker = clear_invalidated_edges slacks; never_updated = false })

    -- update_setup_timing_impl and update_hold_timing_impl of IncrSetupHoldTimingAnalyzer, with the part
    -- of its visitor. The edges stay invalidated.
    pub update_part : IncrAnalyzer S → Result (IncrAnalyzer S)
    update_part a = do
      check (not a.never_updated)
      arrived ← IncrTraversal.do_arrival_traversal F visitor tg tc dc a.graph_walker
      required ← IncrTraversal.do_required_traversal F visitor tg tc dc arrived
      slacks ← IncrTraversal.do_update_slack F visitor tg dc required
      ok (record a { graph_walker = slacks })
