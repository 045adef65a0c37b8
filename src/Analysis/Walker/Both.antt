-- ===== src/Analysis/Walker/Both.antt =====
-- SetupHoldAnalysis of libtatum/tatum/graph_visitors/ with the walker of graph_walkers/SerialWalker.hpp:
-- one pass for two analyses.
use mathlib.Core.List.{reverse}
use tatum.Prelude.{ℕ, Bool, ◌||◌, ◌≡◌, refl, sym, subst, List, [], ◌∷◌}
use tatum.Result.{Result, ok, err, ◌>>=◌, for_each}
use tatum.Result.Pairs.{Both, Both-bind, Both-same, Both-for_each}
use tatum.Time.{Float}
use tatum.Graph.{TimingGraph, NodeId, LevelId, levels, level_nodes, logical_outputs}
use tatum.Constraints.{TimingConstraints}
use tatum.Analysis.{DelayCalculator}
use tatum.Analysis.Visitor.{GraphVisitor, both_visitors, reset_both, traverse_both}
use tatum.Analysis.Walker.{
  Walk, each_node, count_unconstrained, first_level, each_level, do_arrival_pre_traversal,
  do_required_pre_traversal, do_arrival_traversal, do_required_traversal, do_update_slack, do_reset,
  update_timing,
}

module _ (F : Float) {S T : Type 0} where
  -- The state of both analyses, alone and after what a node returns.
  abbrev Paired : S → T → S × T → Type 0
  Paired s t p = p ≡ (s, t)

  abbrev PairedAfter : {A B C : Type 0} → A × S → B × T → C × (S × T) → Type 0
  PairedAfter a b c = Paired a.1 b.1 c.1

  one_then_other :
      (setup : Result S) (hold : Result T)
      → Both Paired setup hold (setup >>= λ s. hold >>= λ t. ok (s, t))
  one_then_other (err fault) hold = tt
  one_then_other (ok s) (err fault) = tt
  one_then_other (ok s) (ok t) = refl

  one_then_other_after :
      (setup : Result (Bool × S)) (hold : Result (Bool × T))
      → Both PairedAfter setup hold (setup >>= λ s. hold >>= λ t. ok (s.0 || t.0, (s.1, t.1)))
  one_then_other_after (err fault) hold = tt
  one_then_other_after (ok s) (err fault) = tt
  one_then_other_after (ok s) (ok t) = refl

  reset-Both :
      (setup : S → Result S) (hold : T → Result T) (s : S) (t : T) (p : S × T)
      → Paired s t p
      → Both Paired (setup s) (hold t) (reset_both F setup hold p)
  reset-Both setup hold s t p h =
      subst (λ q. Both Paired (setup s) (hold t) (reset_both F setup hold q)) (sym h)
        (one_then_other (setup s) (hold t))

  traverse-Both :
      (setup : S → Result (Bool × S)) (hold : T → Result (Bool × T)) (s : S) (t : T) (p : S × T)
      → Paired s t p
      → Both PairedAfter (setup s) (hold t) (traverse_both F setup hold p)
  traverse-Both setup hold s t p h =
      subst (λ q. Both PairedAfter (setup s) (hold t) (traverse_both F setup hold q)) (sym h)
        (one_then_other_after (setup s) (hold t))

  -- A loop on nodes, given the runs of a node in both analyses.
  module _ (setup : NodeId → S → Result (Bool × S)) (hold : NodeId → T → Result (Bool × T)) where
    each_node-Both :
        (nodes : List NodeId) (s : S) (t : T) (p : S × T)
        → Paired s t p
        → Both Paired
            (each_node nodes setup s)
            (each_node nodes hold t)
            (each_node nodes (λ id. traverse_both F (setup id) (hold id)) p)
    unfolding each_node
    each_node-Both nodes s t p h = Both-for_each Paired nodes s t p _ _ _ h (λ id a b c paired.
        Both-bind PairedAfter Paired (setup id a) (hold id b) _ _ _ _
          (traverse-Both (setup id) (hold id) a b c paired) (λ a' b' c' h'. h'))

    count_unconstrained-Both :
        (nodes : List NodeId) (k l m : ℕ) (s : S) (t : T) (p : S × T)
        → Paired s t p
        → Both PairedAfter
            (count_unconstrained setup nodes k s)
            (count_unconstrained hold nodes l t)
            (count_unconstrained (λ id. traverse_both F (setup id) (hold id)) nodes m p)
    unfolding count_unconstrained
    count_unconstrained-Both [] k l m s t p h = h
    count_unconstrained-Both (id ∷ ids) k l m s t p h =
        Both-bind PairedAfter PairedAfter (setup id s) (hold id t) _ _ _ _
          (traverse-Both (setup id) (hold id) s t p h)
          (λ a b c h'. count_unconstrained-Both ids _ _ _ a.1 b.1 c.1 h')

  module _ (setup : GraphVisitor F S) (hold : GraphVisitor F T) (tg : TimingGraph) where
    abbrev pub together : GraphVisitor F (S × T)
    together = both_visitors F setup hold

    each_level-Both :
        (run : NodeId → S → Result (Bool × S)) (run' : NodeId → T → Result (Bool × T))
        (ls : List LevelId) (s : S) (t : T) (p : S × T)
        → Paired s t p
        → Both Paired
            (each_level F setup tg ls run s)
            (each_level F hold tg ls run' t)
            (each_level F together tg ls (λ id. traverse_both F (run id) (run' id)) p)
    unfolding each_level
    each_level-Both run run' ls s t p h =
        Both-for_each Paired ls s t p _ _ _ h (λ level a b c paired.
          Both-same Paired (level_nodes tg level) _ _ _
            (λ nodes. each_node-Both run run' nodes a b c paired))

    do_reset-Both :
        (s : S) (t : T) (p : S × T)
        → Paired s t p
        → Both Paired (do_reset F setup tg s) (do_reset F hold tg t) (do_reset F together tg p)
    unfolding do_reset
    do_reset-Both s t p h =
        Both-bind Paired Paired (for_each tg.node_ids s setup.reset_node)
          (for_each tg.node_ids t hold.reset_node) _ _ _ _
          (Both-for_each Paired tg.node_ids s t p _ _ _ h
            (λ id a b c paired. reset-Both (setup.reset_node id) (hold.reset_node id) a b c paired))
          (λ a b c h'. Both-for_each Paired tg.edge_ids a b c _ _ _ h' (λ id a' b' c' paired.
            reset-Both (setup.reset_edge id) (hold.reset_edge id) a' b' c' paired))

    -- The tables of two walkers, in one.
    abbrev pub Joint : Walk S → Walk T → Walk (S × T) → Type 0
    Joint v u w = Paired v.tables u.tables w.tables

    module _ (tc : TimingConstraints F) where
      do_arrival_pre_traversal-Both :
          (v : Walk S) (u : Walk T) (w : Walk (S × T))
          → Joint v u w
          → Both Joint
              (do_arrival_pre_traversal F setup tg tc v)
              (do_arrival_pre_traversal F hold tg tc u)
              (do_arrival_pre_traversal F together tg tc w)
      unfolding do_arrival_pre_traversal
      do_arrival_pre_traversal-Both v u w h = Both-same Joint (levels tg) _ _ _ (λ ls.
          Both-same Joint (first_level ls) _ _ _ (λ first.
            Both-same Joint (level_nodes tg first) _ _ _ (λ nodes.
              Both-bind PairedAfter Joint _ _ _ _ _ _
                (count_unconstrained-Both (setup.arrival_pre_traverse_node tg tc)
                  (hold.arrival_pre_traverse_node tg tc) nodes 0 0 0 v.tables u.tables w.tables h)
                (λ a b c h'. h'))))

      do_required_pre_traversal-Both :
          (v : Walk S) (u : Walk T) (w : Walk (S × T))
          → Joint v u w
          → Both Joint
              (do_required_pre_traversal F setup tg tc v)
              (do_required_pre_traversal F hold tg tc u)
              (do_required_pre_traversal F together tg tc w)
      unfolding do_required_pre_traversal
      do_required_pre_traversal-Both v u w h = Both-same Joint (logical_outputs tg) _ _ _ (λ nodes.
          Both-bind PairedAfter Joint _ _ _ _ _ _
            (count_unconstrained-Both (setup.required_pre_traverse_node tg tc)
              (hold.required_pre_traverse_node tg tc) nodes 0 0 0 v.tables u.tables w.tables h)
            (λ a b c h'. h'))

      module _ (dc : DelayCalculator F) where
        pub update_timing-Joint :
            (v : Walk S) (u : Walk T) (w : Walk (S × T))
            → Joint v u w
            → Both Joint
                (update_timing F setup tg tc dc v)
                (update_timing F hold tg tc dc u)
                (update_timing F together tg tc dc w)
        unfolding update_timing do_arrival_traversal do_required_traversal do_update_slack
        update_timing-Joint v u w h =
            Both-bind Paired Joint _ _ _ _ _ _ (do_reset-Both v.tables u.tables w.tables h)
              (λ a b c h1.
                Both-bind Joint Joint _ _ _ _ _ _
                  (do_arrival_pre_traversal-Both (record v { tables = a }) (record u { tables = b })
                    (record w { tables = c }) h1)
                  (λ v1 u1 w1 h2.
                    Both-bind Paired Joint _ _ _ _ _ _
                      (Both-same Paired (levels tg) _ _ _ (λ ls.
                        each_level-Both (setup.arrival_traverse_node tg tc dc)
                          (hold.arrival_traverse_node tg tc dc) ls v1.tables u1.tables w1.tables
                          h2))
                      (λ a' b' c' h3.
                        Both-bind Joint Joint _ _ _ _ _ _
                          (do_required_pre_traversal-Both (record v1 { tables = a' })
                            (record u1 { tables = b' }) (record w1 { tables = c' }) h3)
                          (λ v2 u2 w2 h4.
                            Both-bind Paired Joint _ _ _ _ _ _
                              (Both-same Paired (levels tg) _ _ _ (λ ls.
                                each_level-Both (setup.required_traverse_node tg tc dc)
                                  (hold.required_traverse_node tg tc dc) (reverse ls) v2.tables
                                  u2.tables w2.tables h4))
                              (λ a'' b'' c'' h5.
                                Both-bind Paired Joint _ _ _ _ _ _
                                  (each_node-Both (setup.slack_traverse_node tg dc)
                                    (hold.slack_traverse_node tg dc) tg.node_ids a'' b'' c'' h5)
                                  (λ a3 b3 c3 h6. h6))))))
