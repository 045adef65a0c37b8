-- ===== src/Graph/Edit/Consistent.antt =====
-- When the arrays of a timing graph agree with one another.
use tatum.Prelude.{
  ℕ, ◌<◌, ◌≡◌, refl, inl, true, none, some, List, [], ◌∷◌, ◌++◌, arith, length, set, get_or-push,
  get_or-set, get_or_out,
}
use tatum.Container.{StrongId}
use tatum.Graph.{TimingGraph, empty_graph}
use tatum.Graph.View.{alive}
use tatum.Graph.Edit.Refs.{AreRefs, IdsAreOwn, count}

-- The arrays of the nodes have one length and those of the edges have one, an entry of the ids is
-- its own index or INVALID, and the references agree with the ends in both directions.
pub record IsConsistent (g : TimingGraph) : Type 0 where
  pub types_size : length g.node_types ≡ length g.node_ids
  pub edge_types_size : length g.edge_types ≡ length g.edge_ids
  pub disabled_size : length g.edges_disabled ≡ length g.edge_ids
  pub own_nodes : IdsAreOwn g.node_ids
  pub own_edges : IdsAreOwn g.edge_ids
  pub ins : AreRefs g.node_ids g.edge_ids g.node_in_edges g.edge_sink_nodes
  pub outs : AreRefs g.node_ids g.edge_ids g.node_out_edges g.edge_src_nodes

pub empty_graph-IsConsistent : IsConsistent empty_graph
unfolding count
empty_graph-IsConsistent = record {
  types_size = refl;
  edge_types_size = refl;
  disabled_size = refl;
  own_nodes = λ i. inl refl;
  own_edges = λ i. inl refl;
  ins = none_refs;
  outs = none_refs;
}
  where
    none_refs : AreRefs [] [] [] []
    none_refs = record {
      refs_size = refl;
      ends_size = refl;
      counted = λ n e. refl;
      live_ends = λ e a. cc;
    }

pub IdsAreOwn-push :
    (ids : List StrongId) → IdsAreOwn ids → IdsAreOwn (ids ++ some (length ids) ∷ [])
IdsAreOwn-push ids own i = ground (arith, own i, get_or-push ids (some (length ids)) none i)

pub IdsAreOwn-clear :
    (ids : List StrongId) (k : ℕ) → k < length ids → IdsAreOwn ids → IdsAreOwn (set ids k none)
IdsAreOwn-clear ids k lt own i = ground (arith, own i, get_or-set ids k i none none)

pub lt-length_of_alive : (ids : List StrongId) (i : ℕ) → alive ids i ≡ true → i < length ids
lt-length_of_alive ids i a = ground (arith, get_or_out ids i none)
