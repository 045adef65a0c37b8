-- ===== src/Result.antt =====
-- Outcomes of the program: a value, or the fault that stops it. A `TATUM_ASSERT` that fails ends
-- the program (util/tatum_assert.hpp), `tatum::Error` is thrown (error.hpp), and an index out of
-- range is undefined behaviour, which the model reports as a fault of its own.
pub mod Ends
pub mod OnOk
pub mod Pairs
pub mod Halts
use tatum.Prelude.{ℕ, Bool, true, false, Option, none, some, List, [], ◌∷◌}

-- The messages of the exceptions of TimingGraph.cpp, and in the last line those of
-- base/validate_timing_graph_constraints.cpp and timing_paths.cpp.
pub data Message : Type 0 where
  node_sizes edge_sizes level_sizes : Message
  bad_node_id bad_in_edge mismatched_sink bad_out_edge mismatched_src : Message
  bad_edge_id bad_edge_src bad_edge_sink : Message
  not_levelized source_fanin sink_fanout ipin_no_fanin ipin_no_fanout opin_no_fanout : Message
  cpin_no_fanin source_drives source_to_sink source_to_opin source_to_pin sink_drives : Message
  ipin_drives ipin_edge opin_drives opin_edge cpin_drives cpin_to_source cpin_to_sink : Message
  duplicate_edges input_has_fanin input_not_source output_has_fanout output_not_sink : Message
  level_mismatch combinational_loops cpin_infer bad_infer unrecognized_type : Message
  clock_not_source opin_not_generator bad_slack bad_constraint bad_cpd : Message

pub data Fault : Type 0 where
  assertion out_of_range out_of_fuel : Fault
  thrown : Message → Option ℕ → Option ℕ → Fault

pub data Result {ℓ} (Value : Type ℓ) : Type ℓ where
  err : Fault → Result Value
  ok : Value → Result Value

-- TATUM_ASSERT(b)
abbrev pub check : Bool → Result (Unit {0})
check true = ok tt
check false = err assertion

-- if(b) throw e
abbrev pub throw_if : Bool → Fault → Result (Unit {0})
throw_if true e = err e
throw_if false e = ok tt

abbrev pub or_fault {ℓ} : {A : Type ℓ} → Option A → Fault → Result A
or_fault (some a) e = ok a
or_fault none e = err e

-- What comes next runs only if the program has not stopped.
infixl 5 ◌>>=◌
abbrev pub ◌>>=◌ {ℓ κ} :
    {Now : Type ℓ} {Next : Type κ} → Result Now → (Now → Result Next) → Result Next
err fault >>= next = err fault
ok value >>= next = next value

infixl 5 ◌>>◌
abbrev pub ◌>>◌ {κ} : {Next : Type κ} → Result (Unit {0}) → Result Next → Result Next
err fault >> next = err fault
ok _ >> next = next

-- for(x : xs) body, where the body changes the state or stops the program.
unfoldable pub for_each {ℓ κ} :
    {A : Type ℓ} {S : Type κ} → List A → S → (A → S → Result S) → Result S
for_each [] s body = ok s
for_each (x ∷ xs) s body = body x s >>= λ s'. for_each xs s' body
