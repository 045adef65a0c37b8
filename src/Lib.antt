-- ===== src/Lib.antt =====
-- Tatum is a library for static timing analysis. A timing graph joins the pins of a circuit by edges;
-- its levels give the order in which an analysis visits the nodes; the timing tags of a node say when
-- signals arrive and when they are required; constraints say what is analysed. This library models
-- the graph, the tags, the constraints and the analysis (paths below are from libtatum/tatum unless they
-- say more).
--
-- Prelude, Prelude/Tests, Prelude/Lists: shared names, Boolean tests on the numbers, lists.
-- Result: what a call ends with. A failed TATUM_ASSERT, a thrown tatum::Error with its message, node
--   and edge, and an index out of range are faults. TATUM_ASSERT is taken as enabled,
--   and TATUM_ASSERT_SAFE as disabled.
-- Container: StrongId (util/tatum_strong_id.hpp) is an option of a number, INVALID is none; linear_map
--   (util/tatum_linear_map.hpp) is the list of its values.
-- Graph: the class TimingGraph of TimingGraph.hpp, one field of the record for each member, and its
--   accessors. Its children hold the functions of TimingGraph.cpp under their own names:
--   Graph/Edit add_node, add_edge, remove_edge, remove_node, disable_edge; Graph/Remap compress_ids,
--   clean_and_reorder_*, update_*_refs, remap_nodes, remap_edges; Graph/Layout compress and
--   optimize_layout; Graph/Levelize levelize, with its loop in Fuel, and its order of the levels in
--   Open, Order, Visit, Levels and Total; Graph/Validate and Graph/Connect validate and
--   infer_edge_type; Graph/Search find_transitive_*; Graph/Loops base/loop_detect.cpp.
--   Graph/View is the abstract view: the nodes and edges by id, without references and levels.
--   Graph/Edit/Consistent says when the arrays agree, and the other children of Graph/Edit prove the
--   edits: Refs and Trim carry the counting of references, History the sequences of calls.
-- Time: a time is a float, given by an interface with the laws of IEEE 754 comparisons; Time/Model is
--   an instance for the examples.
-- Tags: the class TimingTags of tags/TimingTags.hpp and .inl, and Tags/Tag the class TimingTag,
--   with its max and min in Tags/Tag/Update. The counters wrap at their widths. Tags/Segments is the
--   abstract view, five lists of tags; Array, Insert and Add prove insertion against it, and Overflow
--   the case without room. Tags/Find is tags/TimingTags.cpp.
-- Constraints: TimingConstraints.cpp, with maps as association lists; Constraints/Io holds the
--   constraints on inputs and outputs, the latencies and remap_nodes; Clocks, Lookup and Io/Update
--   hold the proofs.
-- Analysis: graph_visitors/CommonAnalysisVisitor.hpp, over the tables of tags of CommonAnalysisOps.hpp.
--   Its children: Setup and Hold the operations of SetupAnalysisOps.hpp and HoldAnalysisOps.hpp,
--   Guards the should_propagate_* tests, Arrival, Sink, Required and Slack the traversals of a node,
--   Reset the reset of a node's tags, Visitor the interface of graph_visitors/GraphVisitor.hpp with
--   SetupAnalysis.hpp, HoldAnalysis.hpp and SetupHoldAnalysis.hpp, Walker the serial walker
--   (graph_walkers/SerialWalker.hpp), Queue, Incremental and IncrTraversal the incremental walker
--   (graph_walkers/SerialIncrWalker.hpp), Analyzers the updates of analyzers/, Trace
--   report/timing_path_tracing.cpp, Critical timing_paths.cpp, Collect
--   report/TimingPathCollector.cpp, Check
--   base/validate_timing_graph_constraints.cpp. The proofs: Frame what an arrival traversal leaves
--   alone, Walker/Both a pass for two analyses, Queue/Marks, Queue/Contents and Queue/Clear the queues
--   of an incremental update, Incremental/Edges and Incremental/Prepare how it starts,
--   Incremental/Sorting and the children of IncrTraversal what it keeps, Critical/Best the critical
--   paths as a map, Analyzers/Ends and
--   Analyzers/Full the updates as wholes, Tags/Halts and Analysis/Halts with its children that the
--   visitors need no fuel (Result/Halts has the rules). A delay calculator is a record of functions
--   that the client
--   gives. TATUM_CALCULATE_EDGE_SLACKS is taken as defined, TATUM_INCR_BLOCK_INVALIDATION and
--   TATUM_USE_TBB as not defined.
--
-- A function that changes an object takes the state and returns the new one. Recursion without a
-- structural argument has fuel: the walk of force_levelize gets one round more than there are nodes,
-- as each round but the last puts a new node into the next level; strongconnect gets the same, as each
-- call is to visit a new node, and the tracing of a path one step more than there are nodes: no entry
-- below depends on these two. The recursion of find_transitive_*_recurr is on the depth that is left.
-- The arrival loop of an incremental update on the levels gets two rounds more than there are levels: a
-- level past the last one is out of range.
-- Ids are not bounded: a graph is taken to have fewer nodes and edges than an int can count. Ids of
-- clock domains are 16 bits wide.
--
-- Not modelled: the parallel walkers, profiling, the reports and writers, the parser of echo files
-- (libtatumparse), and the test programs. What is there of a function without an entry below is its
-- definition only.
pub mod Prelude
pub mod Result
pub mod Container
pub mod Graph
pub mod Time
pub mod Tags
pub mod Constraints
pub mod Analysis
