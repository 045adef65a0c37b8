-- ===== src/Graph/Levelize/Order.antt =====
-- The walk of `force_levelize` (TimingGraph.cpp) on a consistent graph: its state from edge to edge.
use tatum.Prelude.{
  ℕ, suc, ◌+◌, ◌-◌, ◌<◌, ◌≤◌, ◌≡◌, refl, ◌⊎◌, inl, Bool, true, false, none, some, List, [], arith,
  length, get_or, set, lt→ltb, ◌==◌, if◌then◌else◌, get_elem?_in, get_or-set, get_or_out,
  length-set,
}
use tatum.Result.Ends.{Returns, Returns-branch, Returns-empty, Returns-mono}
use tatum.Container.{push_back}
use tatum.Graph.{TimingGraph, NodeId}
use tatum.Graph.Edit.Refs.{count, count-push}
use tatum.Graph.Edit.Consistent.{IsConsistent, lt-length_of_alive}
use tatum.Graph.Validate.Values.{IsCompact}
use tatum.Graph.Levelize.{Walk, place, visit_edge}
use tatum.Graph.Levelize.Open.{AllBelow, AllBelow-push, pending, mark, pending-mark}

module _ (g : TimingGraph) where
  abbrev pub src : ℕ → NodeId
  src e = get_or g.edge_src_nodes e none

  -- The state of the walk: `rest` are the nodes of the level that have not been visited, and `passed` the
  -- edges that have been. A count is the number of edges still to pass; a node is placed once, when its
  -- count is zero, and until it is visited none of its out-edges has been passed.
  pub record IsWalk (rest : List NodeId) (passed : ℕ → Bool) (w : Walk) : Type 0 where
    pub sized : length w.fanin_remaining ≡ length g.node_ids
    pub counts :
        (n : ℕ) → get_or w.fanin_remaining n 0 ≡ pending g passed (get_or g.node_in_edges n [])
    pub fresh :
        (n e : ℕ)
        → 0 < get_or w.fanin_remaining n 0 + (count n rest + count n w.next_level)
        → src e ≡ some n
        → passed e ≡ false
    pub once : (n : ℕ) → count n rest + count n w.next_level ≤ 1
    pub placed :
        (n : ℕ)
        → 0 < count n rest + (count n w.next_level + count n w.last_level)
        → get_or w.fanin_remaining n 0 ≡ 0
    pub rest_below : AllBelow (length g.node_ids) rest
    pub next_below : AllBelow (length g.node_ids) w.next_level
    pub last_below : AllBelow (length g.node_ids) w.last_level

  -- What a step may pass: edges out of the node that is visited.
  abbrev pub PassesFrom : ℕ → (ℕ → Bool) → (ℕ → Bool) → Type 0
  PassesFrom c before after = (e : ℕ) → after e ≡ true → (before e ≡ true) ⊎ (src e ≡ some c)

  module _ (h : IsConsistent g) (k : IsCompact g) where
    -- One edge of the node `c` is passed, and its sink `t` has one edge less to wait for.
    counted_down :
        (rest : List NodeId) (passed : ℕ → Bool) (w : Walk) (c e t l : ℕ)
        → IsWalk rest passed w
        → e < length g.edge_ids
        → get_or g.edges_disabled e true ≡ false
        → passed e ≡ false
        → src e ≡ some c
        → get_or g.edge_sink_nodes e none ≡ some t
        → get_or w.fanin_remaining c 0 + (count c rest + count c w.next_level) ≡ 0
        → get_or w.fanin_remaining t 0 ≡ suc l
        → IsWalk rest (mark g e passed) (record w { fanin_remaining = set w.fanin_remaining t l })
    counted_down rest passed w c e t l i e_lt on new from to gone left = record {
      sized = omega (arith, i.sized, length-set w.fanin_remaining t l);
      counts = λ n. ground (
        arith,
        i.counts n,
        pending-mark g passed e (get_or g.node_in_edges n []) on new,
        h.ins.counted n e,
        k.edges e e_lt,
        to,
        t_lt,
        get_or-set w.fanin_remaining t n l 0,
        left,
      );
      fresh = λ n f waits starts. ground (
        arith,
        i.fresh n f,
        get_or-set w.fanin_remaining t n l 0,
        t_lt,
        left,
        waits,
        starts,
        from,
        gone,
      );
      once = i.once;
      placed = λ n seen.
          ground (arith, i.placed n, get_or-set w.fanin_remaining t n l 0, t_lt, left, seen);
      rest_below = i.rest_below;
      next_below = i.next_below;
      last_below = i.last_below;
    }
      where
        t_lt : t < length w.fanin_remaining
        t_lt = ground (arith, left, get_or_out w.fanin_remaining t 0)

    -- A node that has nothing left to wait for is placed, and no other node with it.
    abbrev Placed : List NodeId → (ℕ → Bool) → Walk → ℕ → Walk → Type 0
    Placed rest passed w t w' =
        IsWalk rest passed w'
        × (w'.fanin_remaining ≡ w.fanin_remaining)
        × ((n : ℕ)
            → count n w'.next_level
              ≤ (if n == t then suc (count n w.next_level) else count n w.next_level))

    place-IsWalk :
        (rest : List NodeId) (passed : ℕ → Bool) (w : Walk) (t : ℕ)
        → IsWalk rest passed w
        → t < length g.node_ids
        → get_or w.fanin_remaining t 0 ≡ 0
        → count t rest + (count t w.next_level + count t w.last_level) ≡ 0
        → ((f : ℕ) → src f ≡ some t → passed f ≡ false)
        → Returns (Placed rest passed w t) (place g (some t) w)
    unfolding place
    place-IsWalk rest passed w t i t_lt none_left unplaced unstarted =
        let outs_lt : t < length g.node_out_edges = omega (arith, h.outs.refs_size, t_lt) in
        rw (get_elem?_in g.node_out_edges t [] outs_lt) (
          Returns-empty (Placed rest passed w t) (get_or g.node_out_edges t []) _ _
            (λ _. (in_last, refl, λ n. ground arith))
            (λ _ _ _. (in_next, refl, λ n. ground (arith, count-push n t w.next_level))))
      where
        in_last : IsWalk rest passed (record w { last_level = push_back w.last_level (some t) })
        in_last = record {
          sized = i.sized;
          counts = i.counts;
          fresh = i.fresh;
          once = i.once;
          placed =
              λ n seen. ground (arith, i.placed n, count-push n t w.last_level, seen, none_left);
          rest_below = i.rest_below;
          next_below = i.next_below;
          last_below = AllBelow-push _ t w.last_level t_lt i.last_below;
        }

        in_next : IsWalk rest passed (record w { next_level = push_back w.next_level (some t) })
        in_next = record {
          sized = i.sized;
          counts = i.counts;
          fresh = λ n f waits starts.
              ground (arith, i.fresh n f, count-push n t w.next_level, waits, starts, unstarted f);
          once = λ n. ground (arith, i.once n, count-push n t w.next_level, unplaced);
          placed =
              λ n seen. ground (arith, i.placed n, count-push n t w.next_level, seen, none_left);
          rest_below = i.rest_below;
          next_below = AllBelow-push _ t w.next_level t_lt i.next_below;
          last_below = i.last_below;
        }

    -- The visited node waits for nothing, and is not to be visited again.
    abbrev pub Gone : ℕ → List NodeId → Walk → Type 0
    Gone c rest w = get_or w.fanin_remaining c 0 + (count c rest + count c w.next_level) ≡ 0

    -- The state after a step of the visit of `c` which passes at most the edge `e`.
    abbrev pub Stepped : ℕ → List NodeId → (ℕ → Bool) → ℕ → Walk → Type 0
    Stepped c rest passed e w' =
        (after : ℕ → Bool) × IsWalk rest after w'
        × Gone c rest w'
        × ((f : ℕ) → after f ≡ true → (passed f ≡ true) ⊎ (f ≡ e))

    module _ (rest : List NodeId) (passed : ℕ → Bool) (w : Walk) (c e t l : ℕ)
        (i : IsWalk rest passed w) (e_lt : e < length g.edge_ids)
        (on : get_or g.edges_disabled e true ≡ false) (new : passed e ≡ false)
        (from : src e ≡ some c) (to : get_or g.edge_sink_nodes e none ≡ some t)
        (gone : Gone c rest w) (left : get_or w.fanin_remaining t 0 ≡ suc l) where
      abbrev lowered : Walk
      lowered = record w { fanin_remaining = set w.fanin_remaining t l }

      lowered-IsWalk : IsWalk rest (mark g e passed) lowered
      lowered-IsWalk = counted_down rest passed w c e t l i e_lt on new from to gone left

      lowered-Gone : Gone c rest lowered
      lowered-Gone = ground (
        arith,
        gone,
        get_or-set w.fanin_remaining t c l 0,
        left,
        get_or_out w.fanin_remaining t 0,
      )

      only : (f : ℕ) → mark g e passed f ≡ true → (passed f ≡ true) ⊎ (f ≡ e)
      only f p = ground (arith, p)

      stepping : Stepped c rest passed e lowered
      stepping = (mark g e passed, lowered-IsWalk, lowered-Gone, only)

      placing :
          t < length g.node_ids
          → (l == 0) ≡ true
          → Returns (Stepped c rest passed e) (place g (get_or g.edge_sink_nodes e none) lowered)
      placing t_lt z = rw to (
          Returns-mono (Placed rest (mark g e passed) lowered t) (Stepped c rest passed e)
            (place g (some t) lowered)
            (place-IsWalk rest (mark g e passed) lowered t lowered-IsWalk t_lt
              (ground (
                arith,
                z,
                get_or-set w.fanin_remaining t t l 0,
                left,
                get_or_out w.fanin_remaining t 0,
              ))
              (ground (arith, i.placed t, left))
              (λ f starts. ground (arith, i.fresh t f, left, starts, from, gone)))
            (λ w' (i', same, more).
              (mark g e passed, i', ground (arith, lowered-Gone, same, more c, gone, left), only)))

    pub visit_edge-IsWalk :
        (rest : List NodeId) (passed : ℕ → Bool) (w : Walk) (c e : ℕ)
        → IsWalk rest passed w
        → e < length g.edge_ids
        → passed e ≡ false
        → src e ≡ some c
        → Gone c rest w
        → Returns (Stepped c rest passed e) (visit_edge g (some e) w)
    unfolding visit_edge
    visit_edge-IsWalk rest passed w c e i e_lt new from gone =
        let (t, to, alive_t) = h.ins.live_ends e (k.edges e e_lt) in
        let t_lt : t < length g.node_ids = lt-length_of_alive g.node_ids t alive_t in
        rw (get_elem?_in g.edges_disabled e true (omega (arith, h.disabled_size, e_lt))) (
          Returns-branch (Stepped c rest passed e) (get_or g.edges_disabled e true) _ _
            (λ _. (passed, i, gone, λ f p. inl p))
            (λ on.
              let positive : 0 < get_or w.fanin_remaining t 0 = ground (
                arith,
                i.counts t,
                pending-mark g passed e (get_or g.node_in_edges t []) on new,
                h.ins.counted t e,
                k.edges e e_lt,
                to,
              ) in
              let l : ℕ = get_or w.fanin_remaining t 0 - 1 in
              let left : get_or w.fanin_remaining t 0 ≡ suc l = omega (arith, positive) in
              rw
                (
                  get_elem?_in g.edge_sink_nodes e none (omega (arith, h.ins.ends_size, e_lt)),
                  to,
                  get_elem?_in w.fanin_remaining t 0 (omega (arith, i.sized, t_lt)),
                  lt→ltb 0 (get_or w.fanin_remaining t 0) positive,
                  lt→ltb t (length w.fanin_remaining) (omega (arith, i.sized, t_lt)),
                )
                (Returns-branch (Stepped c rest passed e) (l == 0) _ _
                  (λ z. placing rest passed w c e t l i e_lt on new from to gone left t_lt z)
                  (λ _. stepping rest passed w c e t l i e_lt on new from to gone left))))
