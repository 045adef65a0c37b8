-- ===== src/Graph/Loops.antt =====
-- libtatum/tatum/base/loop_detect.cpp: the strongly connected components of the active edges, and
-- identify_combinational_loops of TimingGraph.cpp. An `int` that is -1 before a node is visited is an
-- Option, and a stack is the list of its entries from the top. The recursion has fuel: it is the
-- number of the nodes and one more, as every call is to mark a node that was not visited.
use tatum.Prelude.{
  ℕ, zero, suc, ◌+◌, Bool, true, false, Option, none, some, List, [], ◌∷◌, length, replicate, ltb,
  leb, if◌then◌else◌,
}
use tatum.Result.{Result, ok, err, out_of_range, out_of_fuel, ◌>>=◌, for_each}
use tatum.Container.{at, store, push_back, is_valid, same_id}
use tatum.Graph.{TimingGraph, NodeId, edge_disabled, edge_sink_node, node_out_edges}

pub record NodeSccInfo : Type 0 where
  pub on_stack : Bool
  pub index : Option ℕ
  pub low_link : Option ℕ

-- The state that the calls of `strongconnect` share.
pub record Search : Type 0 where
  pub cur_index : ℕ
  pub stack : List NodeId
  pub node_info : List NodeSccInfo
  pub sccs : List (List NodeId)

-- std::min on the indices, where -1 is the least.
abbrev pub lower : Option ℕ → Option ℕ → Option ℕ
lower none _ = none
lower (some a) none = none
lower (some a) (some b) = some (if ltb b a then b else a)

-- node_info[node].low_link = std::min(node_info[node].low_link, node_info[sink_node].low_link);
pub lower_link : NodeId → NodeId → Search → Result Search
lower_link id sink_node s = do
  here ← at s.node_info id
  there ← at s.node_info sink_node
  info ← store s.node_info id (record here { low_link = lower here.low_link there.low_link })
  ok (record s { node_info = info })

-- The do-while loop that takes a component off the stack.
pub pop_scc : NodeId → List NodeId → Search → List NodeId → Result (List NodeId × Search)
pop_scc id [] s scc = err out_of_range
pop_scc id (scc_node ∷ stack) s scc = do
  info ← at s.node_info scc_node
  infos ← store s.node_info scc_node (record info { on_stack = false })
  let s' = record s { node_info = infos; stack = stack }
  elim (same_id scc_node id) [
    | true ↦ ok (push_back scc scc_node, s')
    | false ↦ pop_scc id stack s' (push_back scc scc_node)
  ]

-- A id whose low link is its own index is the root of a component.
pub close_scc : ℕ → NodeId → Search → Result Search
unfolding pop_scc
close_scc min_size id s = do
  info ← at s.node_info id
  elim (same_id info.low_link info.index) [
    | false ↦ ok s
    | true ↦ do
      popped ← pop_scc id s.stack s []
      let keep = leb min_size (length popped.0)
      ok (record popped.1 {
        sccs = if keep then push_back popped.1.sccs popped.0 else popped.1.sccs;
      })
  ]

pub strongconnect : TimingGraph → ℕ → ℕ → NodeId → Search → Result Search
unfolding for_each lower_link close_scc
strongconnect tg min_size zero id s = err out_of_fuel
strongconnect tg min_size (suc fuel) id s = do
  info ← at s.node_info id
  infos ←
      store s.node_info id
        (record { on_stack = true; index = some s.cur_index; low_link = some s.cur_index })
  out_edges ← node_out_edges tg id
  s' ←
      for_each out_edges
        (record s { node_info = infos; cur_index = s.cur_index + 1; stack = id ∷ s.stack })
        (λ edge t. do
          disabled ← edge_disabled tg edge
          elim disabled [
            | true ↦ ok t
            | false ↦ do
              sink_node ← edge_sink_node tg edge
              sink ← at t.node_info sink_node
              elim (is_valid sink.index) [
                | false ↦ strongconnect tg min_size fuel sink_node t >>= lower_link id sink_node
                | true ↦ if sink.on_stack then lower_link id sink_node t else ok t
              ]
          ])
  close_scc min_size id s'

pub identify_strongly_connected_components : TimingGraph → ℕ → Result (List (List NodeId))
unfolding for_each strongconnect
identify_strongly_connected_components tg min_size = do
  s ←
      for_each tg.node_ids
        (record {
          cur_index = 0;
          stack = [];
          node_info =
              replicate (length tg.node_ids)
                (record { on_stack = false; index = none; low_link = none });
          sccs = [];
        })
        (λ id t. do
          info ← at t.node_info id
          if is_valid info.index
              then ok t
              else strongconnect tg min_size (suc (length tg.node_ids)) id t)
  ok s.sccs

-- Any component of two or more nodes is a loop.
pub identify_combinational_loops : TimingGraph → Result (List (List NodeId))
unfolding identify_strongly_connected_components
identify_combinational_loops tg = identify_strongly_connected_components tg 2
