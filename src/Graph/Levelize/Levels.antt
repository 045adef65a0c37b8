-- ===== src/Graph/Levelize/Levels.antt =====
-- The walk of `force_levelize` (TimingGraph.cpp) on a consistent graph: the levels that it builds.
use tatum.Prelude.{
  ℕ, zero, suc, ◌+◌, ◌<◌, ◌≤◌, ◌≡◌, sym, ap, ◌∙◌, subst, ◌⊎◌, inl, inr, Bool, true, false, none,
  some, List, [], ◌∷◌, ◌++◌, arith, length, get_or, ◌==◌, Bool-cases, get_or-push, get_or_out,
}
use tatum.Result.{for_each}
use tatum.Result.Ends.{Ends, Returns, Returns-empty, Returns→ok}
use tatum.Container.{push_back}
use tatum.Graph.{TimingGraph, NodeId}
use tatum.Graph.Edit.Refs.{count}
use tatum.Graph.Edit.Consistent.{IsConsistent}
use tatum.Graph.Validate.Values.{IsCompact}
use tatum.Graph.Levelize.{Walk, Walked, visit_node, walk}
use tatum.Graph.Levelize.Fuel.{waiting, Paid, round-Paid}
use tatum.Graph.Levelize.Open.{AllBelow, pending, passed_of_pending}
use tatum.Graph.Levelize.Order.{IsWalk, src}
use tatum.Graph.Levelize.Visit.{Rounded, visit_nodes-IsWalk}

-- The node is in the level.
abbrev pub InLevel : ℕ → ℕ → List (List NodeId) → Type 0
InLevel n j levels = 0 < count n (get_or levels j [])

-- Every edge that is not disabled and ends in a level starts in an earlier level.
abbrev pub IsOrdered : TimingGraph → List (List NodeId) → Type 0
IsOrdered g levels =
    (e s t j : ℕ)
    → e < length g.edge_ids
    → get_or g.edges_disabled e true ≡ false
    → get_or g.edge_src_nodes e none ≡ some s
    → get_or g.edge_sink_nodes e none ≡ some t
    → InLevel t j levels
    → (i : ℕ) × (i < j) × InLevel s i levels

-- The levels hold nodes of the graph only.
abbrev pub AreBelow : ℕ → List (List NodeId) → Type 0
AreBelow n levels = (j : ℕ) → AllBelow n (get_or levels j [])

-- What has been passed starts in a node of a level.
abbrev pub Started : TimingGraph → List (List NodeId) → (ℕ → Bool) → Type 0
Started g levels passed =
    (f : ℕ) → passed f ≡ true → (n : ℕ) × (j : ℕ) × (src g f ≡ some n) × InLevel n j levels

InLevel-push :
    (n j : ℕ) (levels : List (List NodeId)) (nodes : List NodeId)
    → InLevel n j levels
    → (j < length levels) × InLevel n j (levels ++ nodes ∷ [])
unfolding count
InLevel-push n j levels nodes h =
    let lt : j < length levels = ground (arith, h, get_or_out levels j []) in
    (lt, ground (arith, h, lt, get_or-push levels nodes [] j))

pub AreBelow-push :
    (n : ℕ) (levels : List (List NodeId)) (nodes : List NodeId)
    → AreBelow n levels
    → AllBelow n nodes
    → AreBelow n (levels ++ nodes ∷ [])
AreBelow-push n levels nodes h new j = elim (Bool-cases (j == length levels)) [
  | inl last ↦ rw (get_or-push levels nodes [] j) (rw last new)
  | inr old ↦ rw (get_or-push levels nodes [] j) (rw old (h j))
]

Started-push :
    (g : TimingGraph) (levels : List (List NodeId)) (nodes : List NodeId) (passed : ℕ → Bool)
    → Started g levels passed
    → Started g (levels ++ nodes ∷ []) passed
Started-push g levels nodes passed h f p =
    let (n, j, from, there) = h f p in (n, j, from, (InLevel-push n j levels nodes there).1)

module _ (g : TimingGraph) (h : IsConsistent g) (k : IsCompact g) where
  -- Nodes all of whose active in-edges have been passed can form the next level.
  pub IsOrdered-push :
      (levels : List (List NodeId)) (nodes : List NodeId) (passed : ℕ → Bool)
      → IsOrdered g levels
      → Started g levels passed
      → ((n : ℕ) → 0 < count n nodes → pending g passed (get_or g.node_in_edges n []) ≡ 0)
      → IsOrdered g (levels ++ nodes ∷ [])
  IsOrdered-push levels nodes passed ordered started done e s t j e_lt on from to there =
      elim (Bool-cases (j == length levels)) [
        | inl last ↦
            let in_new : 0 < count t nodes =
              ground (arith, there, last, get_or-push levels nodes [] j) in
            let seen : 0 < count e (get_or g.node_in_edges t []) =
              ground (arith, h.ins.counted t e, k.edges e e_lt, to) in
            let p : passed e ≡ true =
              passed_of_pending g passed e (get_or g.node_in_edges t []) (done t in_new) seen on in
            let (n, i, starts, in_old) = started e p in
            let same : n ≡ s = cc in
            let (i_lt, in_all) = InLevel-push n i levels nodes in_old in
            (i, ground (arith, i_lt, last), rw (sym same) in_all)
        | inr old ↦
            let in_old : InLevel t j levels =
              ground (arith, there, old, get_or-push levels nodes [] j) in
            let (i, i_lt, in_before) = ordered e s t j e_lt on from to in_old in
            (i, i_lt, (InLevel-push s i levels nodes in_before).1)
      ]

  -- What the walk returns: ordered levels of nodes of the graph, the last level included.
  pub record AreLevels (d : Walked) : Type 0 where
    pub ordered : IsOrdered g (push_back d.levels d.last_level)
    pub below : AreBelow (length g.node_ids) (push_back d.levels d.last_level)
    pub last_below : AllBelow (length g.node_ids) d.last_level

  -- After a round, what has been passed starts in a level: in an old one, or in the one just visited.
  Started-round :
      (current : List NodeId) (levels : List (List NodeId)) (passed after : ℕ → Bool)
      → (j : ℕ) × (get_or levels j [] ≡ current)
      → Started g levels passed
      → ((f : ℕ)
          → after f ≡ true
          → (passed f ≡ true) ⊎ ((n : ℕ) × (src g f ≡ some n) × (0 < count n current)))
      → Started g levels after
  Started-round current levels passed after (j, at_j) started only f p = elim (only f p) [
    | inl old ↦ started f old
    | inr (n, from, there) ↦ (n, j, from, rw at_j there)
  ]

  -- The next level is the level of the next round.
  next_round :
      (passed : ℕ → Bool) (w : Walk)
      → IsWalk g [] passed w
      → IsWalk g w.next_level passed (record w { next_level = [] })
  unfolding count AllBelow
  next_round passed w i = record {
    sized = i.sized;
    counts = i.counts;
    fresh = λ n f waits. i.fresh n f (omega (arith, waits));
    once = λ n. omega (arith, i.once n);
    placed = λ n seen. i.placed n (omega (arith, seen));
    rest_below = i.next_below;
    next_below = tt;
    last_below = i.last_below;
  }

  pub walk-AreLevels :
      (fuel : ℕ) (current : List NodeId) (levels : List (List NodeId)) (remaining : List ℕ)
      (last : List NodeId) (passed : ℕ → Bool)
      → waiting remaining < fuel
      → IsWalk g current passed
          (record { fanin_remaining = remaining; next_level = []; last_level = last })
      → (j : ℕ) × (get_or levels j [] ≡ current)
      → Started g levels passed
      → IsOrdered g levels
      → AreBelow (length g.node_ids) levels
      → Returns AreLevels (walk g fuel current levels remaining last)
  unfolding walk count
  walk-AreLevels zero current levels remaining last passed enough i here started ordered below =
      absurd (omega arith)
  walk-AreLevels (suc fuel) current levels remaining last passed enough i here started ordered
        below =
      let start : Walk = record {
        fanin_remaining = remaining;
        next_level = [];
        last_level = last;
      } in
      let (w, round, rounded) =
        Returns→ok (Rounded g h k current passed) (for_each current start (visit_node g))
          (visit_nodes-IsWalk g h k current passed start i) in
      let (after, i', only) = rounded in
      let paid : Paid (waiting remaining) w =
        subst (Ends (Paid (waiting remaining))) round
          (round-Paid (waiting remaining) g current start (omega arith)) in
      let started' = Started-round current levels passed after here started only in
      let ordered' =
        IsOrdered-push levels w.next_level after ordered started'
          (λ n seen. sym (i'.counts n) ∙ i'.placed n (omega (arith, seen))) in
      let below' = AreBelow-push (length g.node_ids) levels w.next_level below i'.next_below in
      rw round (
        Returns-empty AreLevels w.next_level _ _
          (λ none_next. record {
            ordered =
                IsOrdered-push levels w.last_level after ordered started'
                  (λ n seen. sym (i'.counts n) ∙ i'.placed n (omega (arith, seen)));
            below = AreBelow-push (length g.node_ids) levels w.last_level below i'.last_below;
            last_below = i'.last_below;
          })
          (λ x xs more.
            let fewer : suc (length xs + waiting w.fanin_remaining) ≤ waiting remaining =
              omega (arith, paid, ap length more) in
            walk-AreLevels fuel w.next_level (push_back levels w.next_level) w.fanin_remaining
              w.last_level after (omega (arith, enough, fewer)) (next_round after w i')
              (length levels, ground (arith, get_or-push levels w.next_level [] (length levels)))
              (Started-push g levels w.next_level after started') ordered' below'))
