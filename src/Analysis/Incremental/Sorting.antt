-- ===== src/Analysis/Incremental/Sorting.antt =====
-- A queue of libtatum/tatum/graph_walkers/SerialIncrWalker.hpp after the nodes of a level are sorted.
use tatum.Prelude.{
  ℕ, suc, ◌<◌, ◌≡◌, refl, ◌∙◌, ap, inl, inr, Bool, true, false, List, [], ◌∷◌, arith, length,
  get_or, set, ◌==◌, if◌then◌else◌, get_or-set, length-set, Bool-cases,
}
use tatum.Container.{same_id}
use tatum.Graph.{TimingGraph, NodeId}
use tatum.Graph.Search.{id_before}
use tatum.Analysis.Queue.{Queue}
use tatum.Analysis.Queue.Marks.{count}
use tatum.Analysis.Queue.Contents.{IsQueue}
use tatum.Analysis.Incremental.{place, sort}

swap :
    (a b : Bool) (m : ℕ)
    → (if b then suc (if a then suc m else m) else (if a then suc m else m))
      ≡ (if a then suc (if b then suc m else m) else (if b then suc m else m))
swap true true m = refl
swap true false m = refl
swap false true m = refl
swap false false m = refl

-- An id more, in its place.
count-place : (n x : NodeId) (xs : List NodeId) → count n (place x xs) ≡ count n (x ∷ xs)
unfolding place
count-place n x [] = refl
count-place n x (y ∷ ys) = elim (Bool-cases (id_before y x)) [
  | inl before ↦ rw before (rw (count-place n x ys) (swap (same_id x n) (same_id y n) (count n ys)))
  | inr after ↦ rw after refl
]

pub count-sort : (n : NodeId) (xs : List NodeId) → count n (sort xs) ≡ count n xs
unfolding sort
count-sort n [] = refl
count-sort n (x ∷ xs) =
    count-place n x (sort xs) ∙ ap (λ c. if same_id x n then suc c else c) (count-sort n xs)

-- The nodes of a level are sorted.
abbrev pub sort_level : ℕ → Queue → Queue
sort_level level q = record q {
  nodes_to_process = set q.nodes_to_process level (sort (get_or q.nodes_to_process level []));
}

module _ (tg : TimingGraph) (level : ℕ) (q : Queue) where
  -- The lists have the nodes that they had.
  pub sort_level-IsQueue :
      level < length q.nodes_to_process → IsQueue tg q → IsQueue tg (sort_level level q)
  unfolding sort
  sort_level-IsQueue in_range h = record {
    once = λ n l.
        rw
          (get_or-set q.nodes_to_process level l (sort (get_or q.nodes_to_process level [])) []
            in_range)
          (elim (Bool-cases (level == l)) [
            | inl here ↦
                let is_l : level ≡ l = ground (arith, here) in
                rw (here, count-sort n (get_or q.nodes_to_process level []), h.once n level, is_l)
                  refl
            | inr away ↦ rw (away, h.once n l) refl
          ]);
    range = λ l out.
        rw
          (get_or-set q.nodes_to_process level l (sort (get_or q.nodes_to_process level [])) []
            in_range)
          (elim (Bool-cases (level == l)) [
            | inl here ↦
                let is_l : level ≡ l = ground (arith, here) in rw (here, is_l, h.range l out) refl
            | inr away ↦ rw away (h.range l out)
          ]);
    bound =
        rw (length-set q.nodes_to_process level (sort (get_or q.nodes_to_process level [])))
          h.bound;
  }
