-- ===== src/Analysis/Analyzers/Full.antt =====
-- FullSetupHoldTimingAnalyzer.hpp of libtatum/tatum/analyzers/ next to FullSetupTimingAnalyzer.hpp and
-- FullHoldTimingAnalyzer.hpp.
use tatum.Prelude.{◌≡◌}
use tatum.Result.{ok}
use tatum.Result.Ends.{Returns}
use tatum.Result.Pairs.{Both→Returns}
use tatum.Time.{Float}
use tatum.Graph.{TimingGraph}
use tatum.Constraints.{TimingConstraints}
use tatum.Analysis.{DelayCalculator, Tables}
use tatum.Analysis.Visitor.{setup_visitor, hold_visitor}
use tatum.Analysis.Walker.{Walk}
use tatum.Analysis.Walker.Both.{update_timing-Joint}
use tatum.Analysis.Analyzers.{update_setup_timing, update_hold_timing, update_timing}

module _ (F : Float) (tg : TimingGraph) (tc : TimingConstraints F) (dc : DelayCalculator F) where
  module _ (v v' u u' : Walk (Tables F)) (w : Walk (Tables F × Tables F)) where
    -- From the tables of a setup analysis and those of a hold analysis, which both return, the update of
    -- both at once returns, with the tables that the setup analysis and the hold analysis come to.
    pub update_timing-eq-separate :
        w.tables ≡ (v.tables, u.tables)
        → update_setup_timing F tg tc dc v ≡ ok v'
        → update_hold_timing F tg tc dc u ≡ ok u'
        → Returns (λ w'. w'.tables ≡ (v'.tables, u'.tables)) (update_timing F tg tc dc w)
    unfolding update_setup_timing update_hold_timing update_timing
    update_timing-eq-separate same setup_run hold_run =
        Both→Returns _ _ _ _ v' u'
          (update_timing-Joint F (setup_visitor F) (hold_visitor F) tg tc dc v u w same) setup_run
          hold_run
