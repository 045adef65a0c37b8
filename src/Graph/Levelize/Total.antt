-- ===== src/Graph/Levelize/Total.antt =====
-- `force_levelize` (TimingGraph.cpp) on a consistent graph without removed entries: no assertion fails,
-- no index is out of range, and the levels are in topological order.
use tatum.Prelude.{
  ℕ, suc, ◌+◌, ◌<◌, ◌≤◌, ◌≡◌, refl, sym, ap, ◌∙◌, subst, inl, inr, false, none, some, List, [], ◌∷◌,
  arith, length, get_elem?, get_or, set, replicate, lt→ltb, ◌==◌, get_elem?_in, Bool-cases,
  get_or-set, get_or_out, get_or_of_get, lt-length_of_get, length-set, length-replicate,
}
use tatum.Result.{ok, for_each}
use tatum.Result.Ends.{Returns, Returns-bind, Returns-branch, Returns→ok}
use tatum.Container.{StrongId, push_back}
use tatum.Container.Laws.{same_id→eq}
use tatum.Graph.{TimingGraph, NodeId, LevelId, source, node_num_active_in_edges}
use tatum.Graph.Edit.Refs.{count, count-push}
use tatum.Graph.Edit.Consistent.{IsConsistent}
use tatum.Graph.Validate.Values.{IsCompact}
use tatum.Graph.Levelize.{
  Seeds, seed, seed_node, walk, sinks_of, mark_level, mark_levels, force_levelize,
}
use tatum.Graph.Levelize.Fuel.{waiting-length}
use tatum.Graph.Levelize.Open.{
  AllBelow, AllBelow-push, AllBelow-refs, pending, count_active_edges-pending,
}
use tatum.Graph.Levelize.Order.{IsWalk}
use tatum.Graph.Levelize.Levels.{
  IsOrdered, AreBelow, AreLevels, IsOrdered-push, AreBelow-push, walk-AreLevels,
}

-- What the entries of a list of ids in order are, from an id on.
abbrev AreFrom : ℕ → List StrongId → Type 0
AreFrom m xs = (i : ℕ) (x : StrongId) → get_elem? xs i ≡ some x → x ≡ some (m + i)

module _ (g : TimingGraph) (h : IsConsistent g) (k : IsCompact g) where
  abbrev fanin : ℕ → ℕ
  fanin n = pending g (λ _. false) (get_or g.node_in_edges n [])

  fanin_counted :
      (m : ℕ) → m < length g.node_ids → node_num_active_in_edges g (some m) ≡ ok (fanin m)
  unfolding node_num_active_in_edges
  fanin_counted m lt = rw (get_elem?_in g.node_in_edges m [] (omega (arith, h.ins.refs_size, lt))) (
      count_active_edges-pending g (get_or g.node_in_edges m []) (
        subst (λ n. AllBelow n (get_or g.node_in_edges m [])) (sym h.disabled_size)
          (AllBelow-refs m h.ins (k.ins m))))

  -- The first loop has seen the nodes below `m`.
  record IsSeeded (m : ℕ) (s : Seeds) : Type 0 where
    sized : length s.fanin_remaining ≡ length g.node_ids
    counts : (n : ℕ) → n < m → get_or s.fanin_remaining n 0 ≡ fanin n
    once : (n : ℕ) → count n s.first_level ≤ 1
    first : (n : ℕ) → 0 < count n s.first_level → (n < m) × (fanin n ≡ 0)
    below : AllBelow (length g.node_ids) s.first_level

  seed_node-IsSeeded :
      (m : ℕ) (s : Seeds)
      → m < length g.node_ids
      → IsSeeded m s
      → Returns (IsSeeded (suc m)) (seed_node g (some m) s)
  unfolding seed_node
  seed_node-IsSeeded m s lt i =
      rw (fanin_counted m lt, lt→ltb m (length s.fanin_remaining) (omega (arith, i.sized, lt)))
        (Returns-branch (IsSeeded (suc m)) (fanin m == 0) _ _
          (λ z. rw (get_elem?_in g.node_types m source (omega (arith, h.types_size, lt))) record {
            sized = omega (arith, i.sized, length-set s.fanin_remaining m (fanin m));
            counts = λ n n_lt. ground (
              arith,
              i.counts n,
              i.sized,
              lt,
              n_lt,
              get_or-set s.fanin_remaining m n (fanin m) 0,
            );
            once = λ n. ground (arith, i.once n, i.first n, count-push n m s.first_level);
            first = λ n seen. elim (Bool-cases (n == m)) [
              | inl same ↦
                  let is_m : n ≡ m = ground (arith, same) in
                  (omega (arith, is_m), rw is_m (ground (arith, z)))
              | inr other ↦
                  let (n_lt, none_in) =
                    i.first n (ground (arith, seen, other, count-push n m s.first_level)) in
                  (omega (arith, n_lt), none_in)
            ];
            below = AllBelow-push _ m s.first_level lt i.below;
          })
          (λ z. record {
            sized = omega (arith, i.sized, length-set s.fanin_remaining m (fanin m));
            counts = λ n n_lt. ground (
              arith,
              i.counts n,
              i.sized,
              lt,
              n_lt,
              get_or-set s.fanin_remaining m n (fanin m) 0,
            );
            once = i.once;
            first = λ n seen. let (n_lt, z') = i.first n seen in (omega (arith, n_lt), z');
            below = i.below;
          }))

  seeds-IsSeeded :
      (xs : List NodeId) (m : ℕ) (s : Seeds)
      → AreFrom m xs
      → m + length xs ≡ length g.node_ids
      → IsSeeded m s
      → Returns (IsSeeded (length g.node_ids)) (for_each xs s (seed_node g))
  unfolding for_each
  seeds-IsSeeded [] m s own size i = subst (λ n. IsSeeded n s) (omega (arith, size)) i
  seeds-IsSeeded (x ∷ xs) m s own size i =
      let is_m : x ≡ some m = own 0 x refl ∙ ap some (omega arith) in
      rw is_m (
        Returns-bind (IsSeeded (suc m)) (IsSeeded (length g.node_ids)) (seed_node g (some m) s) _
          (seed_node-IsSeeded m s (omega (arith, size)) i)
          (λ s' i'.
            seeds-IsSeeded xs (suc m) s' (λ j y at_j. own (suc j) y at_j ∙ ap some (omega arith))
              (omega (arith, size)) i'))

  seed-IsSeeded : Returns (IsSeeded (length g.node_ids)) (seed g)
  unfolding seed count AllBelow
  seed-IsSeeded =
      seeds-IsSeeded g.node_ids 0 _
        (λ i x at_i.
          let lt = lt-length_of_get g.node_ids i x at_i in
          sym (get_or_of_get g.node_ids i x none at_i)
          ∙ same_id→eq (get_or g.node_ids i none) (some i) (k.nodes i lt)
          ∙ ap some (omega arith))
        (omega arith)
        (record {
          sized = length-replicate (length g.node_ids) 0;
          counts = λ n n_lt. absurd (omega arith);
          once = λ n. omega arith;
          first = λ n seen. absurd (omega arith);
          below = tt;
        })

  -- The state in which the walk starts: no edge has been passed.
  start-IsWalk :
      (s : Seeds)
      → IsSeeded (length g.node_ids) s
      → IsWalk g s.first_level
          (λ _. false)
          (record { fanin_remaining = s.fanin_remaining; next_level = []; last_level = [] })
  unfolding count pending AllBelow
  start-IsWalk s i = record {
    sized = i.sized;
    counts = λ n. ground (
      arith,
      i.counts n,
      i.sized,
      h.ins.refs_size,
      get_or_out s.fanin_remaining n 0,
      get_or_out g.node_in_edges n [],
    );
    fresh = λ n e _ _. refl;
    once = λ n. omega (arith, i.once n);
    placed =
        λ n seen. let (lt, none_in) = i.first n (omega (arith, seen)) in i.counts n lt ∙ none_in;
    rest_below = i.below;
    next_below = tt;
    last_below = tt;
  }

  walk-Returns :
      (s : Seeds)
      → IsSeeded (length g.node_ids) s
      → Returns
          (AreLevels g h k)
          (walk g (suc (length g.node_ids)) s.first_level (s.first_level ∷ []) s.fanin_remaining [])
  unfolding count AllBelow
  walk-Returns s i =
      walk-AreLevels g h k (suc (length g.node_ids)) s.first_level (s.first_level ∷ [])
        s.fanin_remaining [] (λ _. false) (omega (arith, waiting-length s.fanin_remaining, i.sized))
        (start-IsWalk s i) (0, refl) (λ f p. absurd cc)
        (IsOrdered-push g h k [] s.first_level (λ _. false)
          (λ e a t j e_lt on from to there. absurd (omega arith)) (λ f p. absurd cc)
          (λ n seen. (i.first n seen).1))
        (AreBelow-push (length g.node_ids) [] s.first_level (λ j. tt) i.below)

abbrev Any {ℓ} : {A : Type ℓ} → A → Type 0
Any _ = Unit {0}

sinks-Returns :
    (g : TimingGraph) (ns : List NodeId)
    → AllBelow (length g.node_types) ns
    → Returns Any (sinks_of g ns)
unfolding sinks_of AllBelow
sinks-Returns g [] h = tt
sinks-Returns g (none ∷ ns) h = absurd h
sinks-Returns g (some n ∷ ns) (lt, h) =
    rw (get_elem?_in g.node_types n source lt)
      (Returns-bind Any Any (sinks_of g ns) _ (sinks-Returns g ns h) (λ rest _. tt))

mark_level-Returns :
    (level : LevelId) (nodes : List NodeId) (marks : List LevelId) (size : ℕ)
    → length marks ≡ size
    → AllBelow size nodes
    → Returns (λ marks'. length marks' ≡ size) (mark_level level nodes marks)
unfolding mark_level for_each AllBelow
mark_level-Returns level [] marks size sized h = sized
mark_level-Returns level (none ∷ nodes) marks size sized h = absurd h
mark_level-Returns level (some n ∷ nodes) marks size sized (lt, h) =
    rw (lt→ltb n (length marks) (omega (arith, sized, lt)))
      (mark_level-Returns level nodes (set marks n level) size (length-set marks n level ∙ sized) h)

marks-Returns :
    (i : ℕ) (ls : List (List NodeId)) (marks : List LevelId) (size : ℕ)
    → length marks ≡ size
    → AreBelow size ls
    → Returns Any (mark_levels i ls marks)
unfolding mark_levels
marks-Returns i [] marks size sized h = tt
marks-Returns i (nodes ∷ rest) marks size sized h =
    Returns-bind (λ marks'. length marks' ≡ size) Any (mark_level (some i) nodes marks) _
      (mark_level-Returns (some i) nodes marks size sized (h 0))
      (λ marks' sized'. marks-Returns (suc i) rest marks' size sized' (λ j. h (suc j)))

-- The levels of the second graph are levels of the first.
pub record IsLevelized (g g' : TimingGraph) : Type 0 where
  pub ordered : IsOrdered g g'.level_nodes
  pub below : AreBelow (length g.node_ids) g'.level_nodes

-- On a consistent graph from which nothing has been removed since its ids were last given, force_levelize
-- returns: no assertion fails and no index is out of range. An edge that is not disabled and ends in
-- a node of a level starts in a node of an earlier level, and the levels hold nodes of the graph only.
pub force_levelize-IsOrdered :
    (g : TimingGraph)
    → IsConsistent g
    → IsCompact g
    → (g' : TimingGraph) × (force_levelize g ≡ ok g') × IsLevelized g g'
unfolding force_levelize
force_levelize-IsOrdered g h k =
    let size = length g.node_ids in
    Returns→ok (IsLevelized g) (force_levelize g) (
      Returns-bind (IsSeeded g h k size) (IsLevelized g) (seed g) _ (seed-IsSeeded g h k) (λ s i.
        Returns-bind (AreLevels g h k) (IsLevelized g) _ _ (walk-Returns g h k s i) (λ w ls.
          Returns-bind Any (IsLevelized g) (sinks_of g w.last_level) _
            (sinks-Returns g w.last_level
              (subst (λ n. AllBelow n w.last_level) (sym h.types_size) ls.last_below))
            (λ outputs _.
              Returns-bind Any (IsLevelized g) _ _
                (marks-Returns 0 (push_back w.levels w.last_level) (replicate size none) size
                  (length-replicate size none) ls.below)
                (λ marks _. record { ordered = ls.ordered; below = ls.below })))))
