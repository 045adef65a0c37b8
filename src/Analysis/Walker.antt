-- ===== src/Analysis/Walker.antt =====
-- libtatum/tatum/graph_walkers/SerialWalker.hpp. The profiling is left out.
pub mod Both
use mathlib.Core.List.{reverse}
use tatum.Prelude.{ℕ, suc, Bool, List, [], ◌∷◌, if◌then◌else◌}
use tatum.Result.{Result, ok, err, out_of_range, ◌>>=◌, for_each}
use tatum.Time.{Float}
use tatum.Graph.{TimingGraph, NodeId, LevelId, levels, level_nodes, logical_outputs}
use tatum.Constraints.{TimingConstraints}
use tatum.Analysis.{DelayCalculator}
use tatum.Analysis.Visitor.{GraphVisitor}

-- The members of the walker, with the state of the visitor that it drives.
pub record Walk (S : Type 0) : Type 0 where
  pub tables : S
  pub num_unconstrained_startpoints : ℕ
  pub num_unconstrained_endpoints : ℕ
  pub nodes_modified : List NodeId

module _ {S : Type 0} where
  -- for(node : nodes) run(node), where the result of the visitor is not looked at.
  unfoldable pub each_node : List NodeId → (NodeId → S → Result (Bool × S)) → S → Result S
  unfolding for_each
  each_node nodes run s = for_each nodes s (λ node t. run node t >>= λ r. ok r.1)

  -- The loop of a pre-traversal, which counts the nodes that are not constrained.
  unfoldable pub count_unconstrained :
      (NodeId → S → Result (Bool × S)) → List NodeId → ℕ → S → Result (ℕ × S)
  count_unconstrained run [] n s = ok (n, s)
  count_unconstrained run (node_id ∷ nodes) n s = do
    r ← run node_id s
    count_unconstrained run nodes (if r.0 then n else suc n) r.1

-- *tg.levels().begin()
abbrev pub first_level : List LevelId → Result LevelId
first_level [] = err out_of_range
first_level (level ∷ _) = ok level

module _ (F : Float) {S : Type 0} (visitor : GraphVisitor F S) (tg : TimingGraph) where
  -- for(level : levels) for(node : level_nodes(level)) run(node)
  unfoldable pub each_level : List LevelId → (NodeId → S → Result (Bool × S)) → S → Result S
  unfolding each_node for_each
  each_level ls run s =
      for_each ls s (λ level t. do nodes ← level_nodes tg level; each_node nodes run t)

  -- A full update modifies all nodes; the list is filled once.
  abbrev pub all_if_empty : List NodeId → List NodeId
  all_if_empty [] = tg.node_ids
  all_if_empty (n ∷ ns) = n ∷ ns

  unfoldable pub do_arrival_pre_traversal : TimingConstraints F → Walk S → Result (Walk S)
  unfolding count_unconstrained
  do_arrival_pre_traversal tc w = do
    ls ← levels tg
    first ← first_level ls
    nodes ← level_nodes tg first
    r ← count_unconstrained (visitor.arrival_pre_traverse_node tg tc) nodes 0 w.tables
    ok (record w {
      tables = r.1;
      num_unconstrained_startpoints = r.0;
      nodes_modified = all_if_empty w.nodes_modified;
    })

  unfoldable pub do_required_pre_traversal : TimingConstraints F → Walk S → Result (Walk S)
  unfolding count_unconstrained
  do_required_pre_traversal tc w = do
    nodes ← logical_outputs tg
    r ← count_unconstrained (visitor.required_pre_traverse_node tg tc) nodes 0 w.tables
    ok (record w { tables = r.1; num_unconstrained_endpoints = r.0 })

  unfoldable pub do_arrival_traversal : TimingConstraints F → DelayCalculator F → S → Result S
  unfolding each_level
  do_arrival_traversal tc dc s = do
    ls ← levels tg
    each_level ls (visitor.arrival_traverse_node tg tc dc) s

  unfoldable pub do_required_traversal : TimingConstraints F → DelayCalculator F → S → Result S
  unfolding each_level
  do_required_traversal tc dc s = do
    ls ← levels tg
    each_level (reverse ls) (visitor.required_traverse_node tg tc dc) s

  unfoldable pub do_update_slack : DelayCalculator F → S → Result S
  unfolding each_node
  do_update_slack dc = each_node tg.node_ids (visitor.slack_traverse_node tg dc)

  unfoldable pub do_reset : S → Result S
  unfolding for_each
  do_reset s = do
    nodes ← for_each tg.node_ids s visitor.reset_node
    for_each tg.edge_ids nodes visitor.reset_edge

  -- The six calls of an update in the analyzers that use the walker.
  unfoldable pub update_timing : TimingConstraints F → DelayCalculator F → Walk S → Result (Walk S)
  unfolding do_reset do_arrival_pre_traversal do_arrival_traversal do_required_pre_traversal
      do_required_traversal do_update_slack
  update_timing tc dc w = do
    reset ← do_reset w.tables
    started ← do_arrival_pre_traversal tc (record w { tables = reset })
    arrived ← do_arrival_traversal tc dc started.tables
    ended ← do_required_pre_traversal tc (record started { tables = arrived })
    required ← do_required_traversal tc dc ended.tables
    slacks ← do_update_slack dc required
    ok (record ended { tables = slacks })
