-- ===== src/Graph/Connect.antt =====
-- libtatum/tatum/TimingGraph.cpp: which types of nodes an edge may join. The inference of an edge's type
-- (infer_edge_type), and the checks of validate_structure on a node's fan-in, fan-out and edges.
use tatum.Prelude.{
  ℕ, ◌≡◌, ◌⊎◌, inl, inr, refl, sym, ◌∙◌, subst, Bool, not, ◌&&◌, ◌||◌, none, ltb, ◌==◌,
  if◌then◌else◌,
}
use tatum.Result.{Result, ok, err, Fault, thrown, Message, check, throw_if, ◌>>=◌, ◌>>◌}
use tatum.Graph.{
  TimingGraph, NodeId, EdgeId, NodeType, source, sink, ipin, opin, cpin, same_node_type, EdgeType,
  primitive_combinational, primitive_clock_launch, primitive_clock_capture, interconnect,
  same_edge_type, node_type, edge_src_node, edge_sink_node,
}

-- The type of an edge from the types of its ends.
unfoldable pub edge_type_between : NodeType → NodeType → NodeId → EdgeId → Result EdgeType
edge_type_between src_type sink_type sink_node edge =
    if same_node_type src_type ipin && same_node_type sink_type opin
    then ok primitive_combinational
    else if (same_node_type src_type opin || same_node_type src_type source)
        && (same_node_type sink_type ipin
            || same_node_type sink_type sink
            || same_node_type sink_type cpin)
    then ok interconnect
    else if same_node_type src_type cpin
    then (if same_node_type sink_type source
        then ok primitive_clock_launch
        else if same_node_type sink_type sink
        then ok primitive_clock_capture
        else err (thrown Message.cpin_infer sink_node edge))
    else err (thrown Message.bad_infer none edge)

unfoldable pub infer_edge_type : TimingGraph → EdgeId → Result EdgeType
unfolding edge_type_between
infer_edge_type tg edge = do
  src_node ← edge_src_node tg edge
  sink_node ← edge_sink_node tg edge
  src_type ← node_type tg src_node
  sink_type ← node_type tg sink_node
  edge_type_between src_type sink_type sink_node edge

-- The expected numbers of edges into and out of a node, when dangling nodes are allowed or not.
pub check_fan : NodeType → NodeId → Bool → ℕ → ℕ → Result (Unit {0})
check_fan src_type src_node allow_dangling ins outs =
    if same_node_type src_type source
    then throw_if (ltb 1 ins) (thrown Message.source_fanin src_node none)
    else if same_node_type src_type sink
    then throw_if (ltb 0 outs) (thrown Message.sink_fanout src_node none)
    else if same_node_type src_type ipin
    then (throw_if ((ins == 0) && not allow_dangling) (thrown Message.ipin_no_fanin src_node none)
        >> throw_if ((outs == 0) && not allow_dangling)
            (thrown Message.ipin_no_fanout src_node none))
    else if same_node_type src_type opin
    then throw_if ((outs == 0) && not allow_dangling) (thrown Message.opin_no_fanout src_node none)
    else (check (same_node_type src_type cpin)
        >> throw_if (ins == 0) (thrown Message.cpin_no_fanin src_node none))

-- An edge out of a SOURCE.
pub check_from_source : NodeType → EdgeType → NodeId → EdgeId → Result (Unit {0})
check_from_source sink_type edge_type src_node edge =
    throw_if
      (not (same_node_type sink_type ipin)
        && not (same_node_type sink_type opin)
        && not (same_node_type sink_type cpin)
        && not (same_node_type sink_type sink))
      (thrown Message.source_drives src_node edge)
    >> (if same_node_type sink_type sink
        then throw_if
            (not (same_edge_type edge_type interconnect)
              && not (same_edge_type edge_type primitive_combinational))
            (thrown Message.source_to_sink src_node edge)
        else if same_node_type sink_type opin
        then throw_if (not (same_edge_type edge_type primitive_combinational))
            (thrown Message.source_to_opin src_node edge)
        else (check (same_node_type sink_type ipin || same_node_type sink_type cpin)
            >> throw_if (not (same_edge_type edge_type interconnect))
                (thrown Message.source_to_pin src_node edge)))

-- An edge out of a CPIN.
pub check_from_cpin : NodeType → EdgeType → NodeId → EdgeId → Result (Unit {0})
check_from_cpin sink_type edge_type src_node edge =
    throw_if
      (not (same_node_type sink_type source)
        && not (same_node_type sink_type sink)
        && not (same_node_type sink_type opin))
      (thrown Message.cpin_drives src_node edge)
    >> (if same_node_type sink_type source && not (same_edge_type edge_type primitive_clock_launch)
        then err (thrown Message.cpin_to_source src_node edge)
        else throw_if
            (same_node_type sink_type sink
              && not (same_edge_type edge_type primitive_clock_capture))
            (thrown Message.cpin_to_sink src_node edge))

-- The connectivity that validate_structure asks of an edge, from the types of its ends.
pub check_edge : NodeType → NodeType → EdgeType → NodeId → NodeId → EdgeId → Result (Unit {0})
unfolding check_from_source check_from_cpin
check_edge src_type sink_type edge_type src_node sink_node edge =
    if same_node_type src_type source
    then check_from_source sink_type edge_type src_node edge
    else if same_node_type src_type sink
    then err (thrown Message.sink_drives sink_node none)
    else if same_node_type src_type ipin
    then (throw_if (not (same_node_type sink_type opin) && not (same_node_type sink_type sink))
          (thrown Message.ipin_drives src_node edge)
        >> throw_if (not (same_edge_type edge_type primitive_combinational))
            (thrown Message.ipin_edge src_node edge))
    else if same_node_type src_type opin
    then (throw_if
          (not (same_node_type sink_type ipin)
            && not (same_node_type sink_type cpin)
            && not (same_node_type sink_type sink))
          (thrown Message.opin_drives src_node edge)
        >> throw_if (not (same_edge_type edge_type interconnect))
            (thrown Message.opin_edge src_node edge))
    else if same_node_type src_type cpin
    then check_from_cpin sink_type edge_type src_node edge
    else err (thrown Message.unrecognized_type src_node edge)

-- Either an edge's type is inferred, and an edge of that type between the same ends passes `check_edge`,
-- or the inference throws, for whatever ids the messages name.
pub inferred-check_edge :
    (src_type sink_type : NodeType) (src_node sink_node : NodeId) (edge : EdgeId)
    → ((f : Fault) × (edge_type_between src_type sink_type sink_node edge ≡ err f))
      ⊎ ((t : EdgeType) × (edge_type_between src_type sink_type sink_node edge ≡ ok t)
          × (check_edge src_type sink_type t src_node sink_node edge ≡ ok tt))
unfolding edge_type_between check_edge
inferred-check_edge ipin opin n m e = inr (primitive_combinational, refl, refl)
inferred-check_edge cpin source n m e = inr (primitive_clock_launch, refl, refl)
inferred-check_edge cpin sink n m e = inr (primitive_clock_capture, refl, refl)
inferred-check_edge opin ipin n m e = inr (interconnect, refl, refl)
inferred-check_edge opin sink n m e = inr (interconnect, refl, refl)
inferred-check_edge opin cpin n m e = inr (interconnect, refl, refl)
inferred-check_edge source ipin n m e = inr (interconnect, refl, refl)
inferred-check_edge source sink n m e = inr (interconnect, refl, refl)
inferred-check_edge source cpin n m e = inr (interconnect, refl, refl)
inferred-check_edge source source n m e = inl (_, refl)
inferred-check_edge source opin n m e = inl (_, refl)
inferred-check_edge sink source n m e = inl (_, refl)
inferred-check_edge sink sink n m e = inl (_, refl)
inferred-check_edge sink ipin n m e = inl (_, refl)
inferred-check_edge sink opin n m e = inl (_, refl)
inferred-check_edge sink cpin n m e = inl (_, refl)
inferred-check_edge ipin source n m e = inl (_, refl)
inferred-check_edge ipin sink n m e = inl (_, refl)
inferred-check_edge ipin ipin n m e = inl (_, refl)
inferred-check_edge ipin cpin n m e = inl (_, refl)
inferred-check_edge opin source n m e = inl (_, refl)
inferred-check_edge opin opin n m e = inl (_, refl)
inferred-check_edge cpin ipin n m e = inl (_, refl)
inferred-check_edge cpin opin n m e = inl (_, refl)
inferred-check_edge cpin cpin n m e = inl (_, refl)

err≢ok : (f : Fault) (t : EdgeType) → ¬ (err f ≡ ok t)
err≢ok f t h = cc

ok-inj : (s t : EdgeType) → ok s ≡ ok t → s ≡ t
ok-inj s t h = cc

-- When infer_edge_type returns a type for an edge of a graph, an edge of that type between the same two
-- nodes passes `check_edge`: the tests that validate_structure makes on the types of an edge and of its
-- two ends. The tests on the numbers of edges of a node and on double edges are not meant.
pub infer_edge_type-check_edge :
    (tg : TimingGraph) (edge : EdgeId) (src_node sink_node : NodeId) (src_type sink_type : NodeType)
    (t : EdgeType)
    → edge_src_node tg edge ≡ ok src_node
    → edge_sink_node tg edge ≡ ok sink_node
    → node_type tg src_node ≡ ok src_type
    → node_type tg sink_node ≡ ok sink_type
    → infer_edge_type tg edge ≡ ok t
    → check_edge src_type sink_type t src_node sink_node edge ≡ ok tt
unfolding infer_edge_type
infer_edge_type-check_edge tg edge s n st nt t hs hn hst hnt h =
    let inferred : edge_type_between st nt n edge ≡ ok t = rw (hs, hn, hst, hnt) at h in
    elim (inferred-check_edge st nt s n edge) [
      | inl (f, throws) ↦ absurd (err≢ok f t (sym throws ∙ inferred))
      | inr (t', returns, accepts) ↦
          subst (λ k. check_edge st nt k s n edge ≡ ok tt) (ok-inj t' t (sym returns ∙ inferred))
            accepts
    ]
