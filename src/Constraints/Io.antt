-- ===== src/Constraints/Io.antt =====
-- libtatum/tatum/TimingConstraints.cpp: the constraints on inputs and outputs, the source latencies, the
-- constant generators, the domain of a node, and remap_nodes.
pub mod Update
use tatum.Prelude.{Bool, true, false, ◌&&◌, ◌||◌, Option, none, some, List, [], ◌∷◌, if◌then◌else◌}
use tatum.Result.{Result, ok, ◌>>=◌}
use tatum.Container.{is_valid, same_id, at}
use tatum.Time.{Float}
use tatum.Graph.{NodeId}
use tatum.Tags.Tag.{DomainId}
use tatum.Constraints.Maps.{lookup, assign}
use tatum.Constraints.{
  TimingConstraints, IoConstraint, IoConstraints, DelayType, max, min, ArrivalType, early, late,
  or_else, find_node_source_clock_domain,
}

module _ (F : Float) where
  -- The entry of the equal range of a node that has a domain.
  pub find_io_constraint : NodeId → DomainId → IoConstraints F → Option (IoConstraint F)
  find_io_constraint node_id domain_id [] = none
  find_io_constraint node_id domain_id ((n, io) ∷ rest) =
      if same_id n node_id && same_id io.domain domain_id
      then some io
      else find_io_constraint node_id domain_id rest

  -- Updates the entry that is found, or inserts one after the others.
  pub set_io_constraint : NodeId → DomainId → F.Scalar → IoConstraints F → IoConstraints F
  set_io_constraint node_id domain_id t [] =
      (node_id, record { domain = domain_id; constraint = t }) ∷ []
  set_io_constraint node_id domain_id t ((n, io) ∷ rest) =
      let later = set_io_constraint node_id domain_id t rest in
      if same_id n node_id && same_id io.domain domain_id
      then (n, record io { constraint = t }) ∷ rest
      else (n, io) ∷ later

  abbrev pub constraint_of : Option (IoConstraint F) → F.Scalar
  constraint_of (some io) = io.constraint
  constraint_of none = F.nan

  pub input_constraint : TimingConstraints F → NodeId → DomainId → DelayType → F.Scalar
  unfolding find_io_constraint
  input_constraint c node_id domain_id max =
      constraint_of (find_io_constraint node_id domain_id c.max_input_constraints)
  input_constraint c node_id domain_id min =
      constraint_of (find_io_constraint node_id domain_id c.min_input_constraints)

  pub output_constraint : TimingConstraints F → NodeId → DomainId → DelayType → F.Scalar
  unfolding find_io_constraint
  output_constraint c node_id domain_id max =
      constraint_of (find_io_constraint node_id domain_id c.max_output_constraints)
  output_constraint c node_id domain_id min =
      constraint_of (find_io_constraint node_id domain_id c.min_output_constraints)

  -- equal_range
  pub of_node : NodeId → IoConstraints F → IoConstraints F
  of_node id [] = []
  of_node id ((n, io) ∷ rest) =
      let later = of_node id rest in if same_id n id then (n, io) ∷ later else later

  unfoldable pub input_constraints : TimingConstraints F → NodeId → DelayType → IoConstraints F
  unfolding of_node
  input_constraints c id max = of_node id c.max_input_constraints
  input_constraints c id min = of_node id c.min_input_constraints

  pub output_constraints : TimingConstraints F → NodeId → DelayType → IoConstraints F
  unfolding of_node
  output_constraints c id max = of_node id c.max_output_constraints
  output_constraints c id min = of_node id c.min_output_constraints

  pub set_input_constraint :
      TimingConstraints F → NodeId → DomainId → DelayType → F.Scalar → TimingConstraints F
  unfolding set_io_constraint
  set_input_constraint c node_id domain_id max t = record c {
    max_input_constraints = set_io_constraint node_id domain_id t c.max_input_constraints;
  }
  set_input_constraint c node_id domain_id min t = record c {
    min_input_constraints = set_io_constraint node_id domain_id t c.min_input_constraints;
  }

  pub set_output_constraint :
      TimingConstraints F → NodeId → DomainId → DelayType → F.Scalar → TimingConstraints F
  unfolding set_io_constraint
  set_output_constraint c node_id domain_id max t = record c {
    max_output_constraints = set_io_constraint node_id domain_id t c.max_output_constraints;
  }
  set_output_constraint c node_id domain_id min t = record c {
    min_output_constraints = set_io_constraint node_id domain_id t c.min_output_constraints;
  }

  pub source_latency : TimingConstraints F → DomainId → ArrivalType → F.Scalar
  source_latency c domain early =
      or_else F (lookup same_id domain c.source_latencies_early) F.zero_time
  source_latency c domain late =
      or_else F (lookup same_id domain c.source_latencies_late) F.zero_time

  pub set_source_latency :
      TimingConstraints F → DomainId → ArrivalType → F.Scalar → TimingConstraints F
  set_source_latency c domain early t = record c {
    source_latencies_early = assign same_id domain t c.source_latencies_early;
  }
  set_source_latency c domain late t = record c {
    source_latencies_late = assign same_id domain t c.source_latencies_late;
  }

  -- std::unordered_set<NodeId>: count, insert and erase.
  pub contains : NodeId → List NodeId → Bool
  contains id [] = false
  contains id (n ∷ ns) = same_id n id || contains id ns

  pub insert_id : NodeId → List NodeId → List NodeId
  unfolding contains
  insert_id id ns = if contains id ns then ns else id ∷ ns

  pub erase_id : NodeId → List NodeId → List NodeId
  erase_id id [] = []
  erase_id id (n ∷ ns) = let rest = erase_id id ns in if same_id n id then rest else n ∷ rest

  unfoldable pub node_is_constant_generator : TimingConstraints F → NodeId → Bool
  unfolding contains
  node_is_constant_generator c id = contains id c.constant_generators

  pub set_constant_generator : TimingConstraints F → NodeId → Bool → TimingConstraints F
  unfolding insert_id erase_id
  set_constant_generator c id true = record c {
    constant_generators = insert_id id c.constant_generators;
  }
  set_constant_generator c id false = record c {
    constant_generators = erase_id id c.constant_generators;
  }

  -- The domain of the first constraint of a node in one multimap.
  pub domain_in : NodeId → IoConstraints F → Option DomainId
  domain_in id [] = none
  domain_in id ((n, io) ∷ rest) = if same_id n id then some io.domain else domain_in id rest

  abbrev pub or_next : Option DomainId → DomainId → DomainId
  or_next (some d) next = d
  or_next none next = next

  -- A clock source, else the first input or output constraint, of the maximum delays first.
  unfoldable pub node_clock_domain : TimingConstraints F → NodeId → Result DomainId
  unfolding domain_in
  node_clock_domain c id = do
    source_domain ← find_node_source_clock_domain F c id
    ok (
        if is_valid source_domain
        then source_domain
        else or_next (domain_in id c.max_input_constraints) (
            or_next (domain_in id c.min_input_constraints) (
              or_next (domain_in id c.max_output_constraints)
                (or_next (domain_in id c.min_output_constraints) none))))

  -- The loops of remap_nodes: over the sources, the generators and a multimap.
  pub remap_sources : List NodeId → List NodeId → Result (List NodeId)
  remap_sources node_map [] = ok []
  remap_sources node_map (none ∷ sources) =
      remap_sources node_map sources >>= λ rest. ok (none ∷ rest)
  remap_sources node_map (some n ∷ sources) = do
    new_id ← at node_map (some n)
    rest ← remap_sources node_map sources
    ok (new_id ∷ rest)

  pub remap_generators : List NodeId → List NodeId → List NodeId → Result (List NodeId)
  unfolding insert_id
  remap_generators node_map [] remapped = ok remapped
  remap_generators node_map (id ∷ ids) remapped = do
    new_id ← at node_map id
    remap_generators node_map ids (insert_id new_id remapped)

  pub remap_io : List NodeId → IoConstraints F → Result (IoConstraints F)
  remap_io node_map [] = ok []
  remap_io node_map ((n, io) ∷ rest) = do
    new_node_id ← at node_map n
    rest' ← remap_io node_map rest
    ok ((new_node_id, io) ∷ rest')

  pub remap_nodes : TimingConstraints F → List NodeId → Result (TimingConstraints F)
  unfolding remap_sources remap_generators remap_io
  remap_nodes c node_map = do
    sources ← remap_sources node_map c.domain_sources
    generators ← remap_generators node_map c.constant_generators []
    max_in ← remap_io node_map c.max_input_constraints
    min_in ← remap_io node_map c.min_input_constraints
    max_out ← remap_io node_map c.max_output_constraints
    min_out ← remap_io node_map c.min_output_constraints
    ok (record c {
      domain_sources = sources;
      constant_generators = generators;
      max_input_constraints = max_in;
      min_input_constraints = min_in;
      max_output_constraints = max_out;
      min_output_constraints = min_out;
    })
