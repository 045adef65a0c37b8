-- ===== src/Graph/Levelize/Fuel.antt =====
-- The loop of `force_levelize` (TimingGraph.cpp) ends: a round that goes on has placed a node whose
-- fan-in count it has brought down to zero, and no count goes up.
use tatum.Prelude.{
  ℕ, zero, suc, ◌+◌, ◌-◌, ◌≤◌, ◌<◌, ◌≡◌, ◌≢◌, refl, ap, true, false, none, some, List, [], ◌∷◌,
  arith, length, get_elem?, set, ltb, ◌==◌, replicate, length-push, length-replicate, length-set,
}
use tatum.Result.{ok, err, out_of_fuel, for_each}
use tatum.Result.Ends.{
  Ends, Ends-bind, Ends-branch, Ends-empty, Ends-mono, Ends→≢, Ends-for_each, Ends-at, Ends-store,
  Ends-check,
}
use tatum.Container.{at, store, push_back}
use tatum.Graph.{
  TimingGraph, NodeId, EdgeId, LevelId, edge_disabled, edge_sink_node, node_out_edges,
  node_in_edges, node_type, count_active_edges, node_num_active_in_edges,
}
use tatum.Graph.Levelize.{
  Seeds, Walk, place, visit_edge, visit_node, walk, seed, seed_node, sinks_of, mark_level,
  mark_levels, force_levelize,
}

-- How many nodes still wait for fan-in.
unfoldable pub waiting : List ℕ → ℕ
waiting [] = 0
waiting (zero ∷ rs) = waiting rs
waiting (suc r ∷ rs) = suc (waiting rs)

pub waiting-length : (rs : List ℕ) → waiting rs ≤ length rs
unfolding waiting
waiting-length [] = omega arith
waiting-length (zero ∷ rs) = omega (arith, waiting-length rs)
waiting-length (suc r ∷ rs) = omega (arith, waiting-length rs)

-- Counting a node down takes it off the waiting ones exactly when it reaches zero.
pub waiting-set :
    (rs : List ℕ) (i left : ℕ)
    → get_elem? rs i ≡ some (suc left)
    → waiting rs ≡ (elim (left == 0) [
      | true ↦ suc (waiting (set rs i left))
      | false ↦ waiting (set rs i left)
    ])
unfolding waiting
waiting-set [] i left h = absurd cc
waiting-set (zero ∷ rs) zero left h = absurd cc
waiting-set (suc r ∷ rs) zero zero h = ground arith
waiting-set (suc r ∷ rs) zero (suc left) h = ground arith
waiting-set (zero ∷ rs) (suc i) zero h = ground (arith, waiting-set rs i zero h)
waiting-set (suc r ∷ rs) (suc i) zero h = ground (arith, waiting-set rs i zero h)
waiting-set (zero ∷ rs) (suc i) (suc left) h = ground (arith, waiting-set rs i (suc left) h)
waiting-set (suc r ∷ rs) (suc i) (suc left) h = ground (arith, waiting-set rs i (suc left) h)

-- The nodes placed in the next level are paid for by nodes that no longer wait.
abbrev pub Paid : ℕ → Walk → Type 0
Paid m w = length w.next_level + waiting w.fanin_remaining ≤ m

place-Paid :
    (m : ℕ) (g : TimingGraph) (id : NodeId) (w : Walk)
    → suc (length w.next_level + waiting w.fanin_remaining) ≤ m
    → Ends (Paid m) (place g id w)
unfolding place
place-Paid m g id w h =
    Ends-bind _ _ (node_out_edges g id) _ (Ends-at g.node_out_edges id) (λ outs there.
      Ends-empty (Paid m) outs _ _ (λ _. omega (arith, h))
        (λ _ _ _. omega (arith, h, length-push w.next_level id)))

-- The part of `visit_edge` after a positive count has been read.
count_down-Paid :
    (m : ℕ) (g : TimingGraph) (id : NodeId) (i left : ℕ) (w : Walk) (rs : List ℕ)
    → get_elem? w.fanin_remaining i ≡ some left
    → ltb 0 left ≡ true
    → rs ≡ set w.fanin_remaining i (left - 1)
    → Paid m w
    → Ends (Paid m) (elim (left - 1 == 0) [
      | true ↦ place g id (record w { fanin_remaining = rs })
      | false ↦ ok (record w { fanin_remaining = rs })
    ])
count_down-Paid m g id i zero w rs there pos stored h = absurd (ground arith)
count_down-Paid m g id i (suc k) w rs there pos stored h =
    let back : suc k - 1 ≡ k = omega arith in
    let counted = waiting-set w.fanin_remaining i k there in
    let same : rs ≡ set w.fanin_remaining i k = rw stored (rw back refl) in
    Ends-branch _ (suc k - 1 == 0) _ _
      (λ z.
        place-Paid m g id (record w { fanin_remaining = rs }) (rw same (ground (arith, counted))))
      (λ z. rw same (ground (arith, counted)))

visit_edge-Paid :
    (m : ℕ) (g : TimingGraph) (e : EdgeId) (w : Walk) → Paid m w → Ends (Paid m) (visit_edge g e w)
unfolding visit_edge
visit_edge-Paid m g e w h =
    Ends-bind _ _ (edge_disabled g e) _ (Ends-at g.edges_disabled e) (λ disabled _.
      Ends-branch _ disabled _ _ (λ _. h)
        (λ _. Ends-bind _ _ (edge_sink_node g e) _ (Ends-at g.edge_sink_nodes e) (λ id _.
          Ends-bind _ _ (at w.fanin_remaining id) _ (Ends-at w.fanin_remaining id)
            (λ left (i, is_i, there). Ends-check _ (ltb 0 left) _ (λ pos.
              Ends-bind _ _ (store w.fanin_remaining id (left - 1)) _
                (Ends-store w.fanin_remaining id (left - 1))
                (λ rs (j, is_j, _, stored).
                  let same : j ≡ i = cc in
                  count_down-Paid m g id i left w rs there pos (rw stored (rw same refl)) h))))))

visit_node-Paid :
    (m : ℕ) (g : TimingGraph) (id : NodeId) (w : Walk)
    → Paid m w
    → Ends (Paid m) (visit_node g id w)
unfolding visit_node
visit_node-Paid m g id w h =
    Ends-bind _ _ (node_out_edges g id) _ (Ends-at g.node_out_edges id)
      (λ es _. Ends-for_each (Paid m) es w (visit_edge g) h (λ e. visit_edge-Paid m g e))

pub round-Paid :
    (m : ℕ) (g : TimingGraph) (current : List NodeId) (w : Walk)
    → Paid m w
    → Ends (Paid m) (for_each current w (visit_node g))
round-Paid m g current w h =
    Ends-for_each (Paid m) current w (visit_node g) h (λ id. visit_node-Paid m g id)

-- No more is said than that the fuel is enough.
abbrev Any {ℓ} : {A : Type ℓ} → A → Type 0
Any _ = Unit {0}

-- As many rounds as nodes wait, and one more, are enough.
pub walk-Ends :
    (g : TimingGraph) (fuel : ℕ) (current : List NodeId) (levels : List (List NodeId))
    (remaining : List ℕ) (last : List NodeId)
    → waiting remaining < fuel
    → Ends Any (walk g fuel current levels remaining last)
unfolding walk
walk-Ends g zero current levels remaining last h = absurd (omega arith)
walk-Ends g (suc fuel) current levels remaining last h =
    let start : Walk = record { fanin_remaining = remaining; next_level = []; last_level = last } in
    Ends-bind (Paid (waiting remaining)) Any (for_each current start (visit_node g)) _
      (round-Paid (waiting remaining) g current start (omega arith))
      (λ w paid.
        Ends-empty Any w.next_level _ _ (λ _. tt)
          (λ x xs more.
            let fewer : suc (length xs + waiting w.fanin_remaining) ≤ waiting remaining =
              omega (arith, paid, ap length more) in
            walk-Ends g fuel w.next_level (push_back levels w.next_level) w.fanin_remaining
              w.last_level (omega (arith, h, fewer))))

count-Ends : (g : TimingGraph) (es : List EdgeId) → Ends Any (count_active_edges g es)
unfolding count_active_edges
count-Ends g [] = tt
count-Ends g (e ∷ es) =
    Ends-bind _ _ (edge_disabled g e) _ (Ends-at g.edges_disabled e)
      (λ d _. Ends-bind Any _ (count_active_edges g es) _ (count-Ends g es) (λ rest _. tt))

-- The counts of the seeds stay as many as the nodes.
abbrev Sized : TimingGraph → Seeds → Type 0
Sized g s = length s.fanin_remaining ≡ length g.node_ids

seed_node-Sized :
    (g : TimingGraph) (id : NodeId) (s : Seeds) → Sized g s → Ends (Sized g) (seed_node g id s)
unfolding seed_node node_num_active_in_edges
seed_node-Sized g id s h =
    Ends-bind Any _ (node_num_active_in_edges g id) _
      (Ends-bind _ _ (node_in_edges g id) _ (Ends-at g.node_in_edges id) (λ es _. count-Ends g es))
      (λ fanin _.
        Ends-bind _ _ (store s.fanin_remaining id fanin) _ (Ends-store s.fanin_remaining id fanin)
          (λ rs (i, _, _, stored).
            let sized : length rs ≡ length g.node_ids =
              rw stored (rw (length-set s.fanin_remaining i fanin) h) in
            Ends-branch (Sized g) (fanin == 0) _ _
              (λ _. Ends-bind _ _ (node_type g id) _ (Ends-at g.node_types id) (λ type _. sized))
              (λ _. sized)))

seed-Sized : (g : TimingGraph) → Ends (Sized g) (seed g)
unfolding seed
seed-Sized g =
    Ends-for_each (Sized g) g.node_ids _ (seed_node g) (length-replicate (length g.node_ids) 0)
      (λ id. seed_node-Sized g id)

sinks-Ends : (g : TimingGraph) (ns : List NodeId) → Ends Any (sinks_of g ns)
unfolding sinks_of
sinks-Ends g [] = tt
sinks-Ends g (n ∷ ns) =
    Ends-bind _ _ (node_type g n) _ (Ends-at g.node_types n)
      (λ type _. Ends-bind Any _ (sinks_of g ns) _ (sinks-Ends g ns) (λ rest _. tt))

marks-Ends :
    (i : ℕ) (ls : List (List NodeId)) (marks : List LevelId) → Ends Any (mark_levels i ls marks)
unfolding mark_levels mark_level
marks-Ends i [] marks = tt
marks-Ends i (nodes ∷ rest) marks =
    Ends-bind Any _ (mark_level (some i) nodes marks) _
      (Ends-for_each Any nodes marks (λ n m. store m n (some i)) tt
        (λ n m _. Ends-mono _ Any (store m n (some i)) (Ends-store m n (some i)) (λ _ _. tt)))
      (λ marks' _. marks-Ends (suc i) rest marks')

-- force_levelize never runs out of fuel, whatever the graph, its loops of edges and inconsistent arrays
-- included: the loop over the levels ends within as many rounds as there are nodes, and one more.
pub force_levelize-terminates : (g : TimingGraph) → force_levelize g ≢ err out_of_fuel
unfolding force_levelize
force_levelize-terminates g = Ends→≢ Any (force_levelize g) (
    Ends-bind (Sized g) Any (seed g) _ (seed-Sized g) (λ s sized.
      Ends-bind Any Any
        (walk g (suc (length g.node_ids)) s.first_level (s.first_level ∷ []) s.fanin_remaining []) _
        (walk-Ends g (suc (length g.node_ids)) s.first_level (s.first_level ∷ []) s.fanin_remaining
          [] (omega (arith, waiting-length s.fanin_remaining, sized)))
        (λ w _.
          Ends-bind Any Any (sinks_of g w.last_level) _ (sinks-Ends g w.last_level) (λ outputs _.
            Ends-bind Any Any _ _
              (marks-Ends 0 (push_back w.levels w.last_level) (replicate (length g.node_ids) none))
              (λ marks _. tt)))))
