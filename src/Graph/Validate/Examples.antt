-- ===== src/Graph/Validate/Examples.antt =====
-- Checks of a graph of two nodes and an edge.
use tatum.Prelude.{ℕ, ◌≡◌, ◌<◌, refl, zero, suc, arith, some, [], ◌∷◌, true, get_or}
use tatum.Result.{ok}
use tatum.Graph.{source, sink, interconnect}
use tatum.Graph.View.{alive}
use tatum.Graph.Edit.Examples.{joined, joined-IsConsistent}
use tatum.Graph.Connect.{infer_edge_type, edge_type_between, check_edge, infer_edge_type-check_edge}
use tatum.Graph.Validate.{validate_values}
use tatum.Graph.Validate.Values.{AllSet, IsCompact, validate_values-accepts}

one-AllSet : AllSet (some 0 ∷ [])
one-AllSet zero x e = (0, ground (arith, e))
one-AllSet (suc i) x e = absurd cc

none-AllSet : AllSet []
none-AllSet i x e = absurd cc

joined-nodes : (i : ℕ) → i < 2 → alive joined.node_ids i ≡ true
joined-nodes zero h = refl
joined-nodes (suc zero) h = refl
joined-nodes (suc (suc i)) h = absurd (omega arith)

joined-edges : (i : ℕ) → i < 1 → alive joined.edge_ids i ≡ true
joined-edges zero h = refl
joined-edges (suc i) h = absurd (omega arith)

joined-ins : (n : ℕ) → AllSet (get_or joined.node_in_edges n [])
joined-ins zero = none-AllSet
joined-ins (suc zero) = one-AllSet
joined-ins (suc (suc n)) = none-AllSet

joined-outs : (n : ℕ) → AllSet (get_or joined.node_out_edges n [])
joined-outs zero = one-AllSet
joined-outs (suc zero) = none-AllSet
joined-outs (suc (suc n)) = none-AllSet

pub joined-IsCompact : IsCompact joined
joined-IsCompact = record {
  nodes = joined-nodes;
  edges = joined-edges;
  ins = joined-ins;
  outs = joined-outs;
}

validate_values-accepts_example : validate_values joined ≡ ok true
validate_values-accepts_example =
    validate_values-accepts joined joined-IsConsistent joined-IsCompact

inferred : infer_edge_type joined (some 0) ≡ ok interconnect
unfolding infer_edge_type edge_type_between
inferred = refl

infer_edge_type-check_edge_example :
    check_edge source sink interconnect (some 0) (some 1) (some 0) ≡ ok tt
infer_edge_type-check_edge_example =
    infer_edge_type-check_edge joined (some 0) (some 0) (some 1) source sink interconnect refl refl
      refl refl inferred
