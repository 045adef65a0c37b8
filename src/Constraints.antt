-- ===== src/Constraints.antt =====
-- libtatum/tatum/TimingConstraints.cpp and TimingConstraints.hpp: the clock domains and the constraints.
-- A std::string is the list of its bytes. A std::map is an association list, so that the order in which
-- it is printed is forgotten; a std::multimap keeps the entries of a key in the order of insertion.
pub mod Maps
pub mod Lookup
pub mod Io
pub mod Clocks
pub mod Examples
use tatum.Prelude.{
  ℕ, zero, suc, ◌+◌, ◌%◌, Bool, true, false, not, ◌&&◌, ◌||◌, Option, none, some, List, [], ◌∷◌,
  ◌++◌, length, ◌==◌, if◌then◌else◌,
}
use tatum.Result.{Result, ok, err, check, ◌>>=◌, ◌>>◌}
use tatum.Container.{StrongId, is_valid, same_id, at, store, push_back}
use tatum.Time.{Float}
use tatum.Graph.{NodeId}
use tatum.Tags.Tag.{DomainId}
use Maps.{lookup, assign}

abbrev pub Name : Type 0
Name = List ℕ

-- operator== on strings
pub same_name : Name → Name → Bool
same_name [] [] = true
same_name [] (y ∷ ys) = false
same_name (x ∷ xs) [] = false
same_name (x ∷ xs) (y ∷ ys) = (x == y) && same_name xs ys

pub record DomainPair : Type 0 where
  pub src_domain_id : DomainId
  pub sink_domain_id : DomainId

-- `none` for the node is the wild card.
pub record NodeDomainPair : Type 0 where
  pub domain_pair : DomainPair
  pub capture_node : NodeId

abbrev pub same_pair : DomainPair → DomainPair → Bool
same_pair a b = same_id a.src_domain_id b.src_domain_id && same_id a.sink_domain_id b.sink_domain_id

abbrev pub same_node_pair : NodeDomainPair → NodeDomainPair → Bool
same_node_pair a b = same_id a.capture_node b.capture_node && same_pair a.domain_pair b.domain_pair

abbrev pub pair_key : DomainId → DomainId → DomainPair
pair_key src sink = record { src_domain_id = src; sink_domain_id = sink }

abbrev pub key : DomainId → DomainId → NodeId → NodeDomainPair
key src sink node = record { domain_pair = pair_key src sink; capture_node = node }

pub data DelayType : Type 0 where
  max min : DelayType

pub data ArrivalType : Type 0 where
  early late : ArrivalType

pub record IoConstraint (F : Float) : Type 0 where
  pub domain : DomainId
  pub constraint : F.Scalar

abbrev pub IoConstraints : Float → Type 0
IoConstraints F = List (NodeId × IoConstraint F)

pub record TimingConstraints (F : Float) : Type 0 where
  pub domain_ids : List DomainId
  pub domain_names : List Name
  pub domain_sources : List NodeId
  pub constant_generators : List NodeId
  pub setup_constraints : List (NodeDomainPair × F.Scalar)
  pub hold_constraints : List (NodeDomainPair × F.Scalar)
  pub setup_clock_uncertainties : List (DomainPair × F.Scalar)
  pub hold_clock_uncertainties : List (DomainPair × F.Scalar)
  pub max_input_constraints : IoConstraints F
  pub min_input_constraints : IoConstraints F
  pub max_output_constraints : IoConstraints F
  pub min_output_constraints : IoConstraints F
  pub source_latencies_early : List (DomainId × F.Scalar)
  pub source_latencies_late : List (DomainId × F.Scalar)

module _ (F : Float) where
  -- The name of the domain, or "*".
  abbrev pub clock_domain_name : TimingConstraints F → DomainId → Result Name
  clock_domain_name c none = ok (42 ∷ [])
  clock_domain_name c (some i) = at c.domain_names (some i)

  abbrev pub clock_domain_source_node : TimingConstraints F → DomainId → Result NodeId
  clock_domain_source_node c id = at c.domain_sources id

  pub is_virtual_clock : TimingConstraints F → DomainId → Result Bool
  is_virtual_clock c id = do node ← clock_domain_source_node c id; ok (not (is_valid node))

  -- The first domain of a list whose name, or whose source, is the one that is sought.
  pub find_named : TimingConstraints F → Name → List DomainId → Result DomainId
  find_named c name [] = ok none
  find_named c name (id ∷ ids) = do
    found ← clock_domain_name c id
    elim (same_name found name) [ true ↦ ok id | false ↦ find_named c name ids ]

  pub find_clock_domain : TimingConstraints F → Name → Result DomainId
  unfolding find_named
  find_clock_domain c name = find_named c name c.domain_ids

  unfoldable pub find_sourced : TimingConstraints F → NodeId → List DomainId → Result DomainId
  find_sourced c node_id [] = ok none
  find_sourced c node_id (id ∷ ids) = do
    found ← clock_domain_source_node c id
    elim (same_id found node_id) [ true ↦ ok id | false ↦ find_sourced c node_id ids ]

  unfoldable pub find_node_source_clock_domain : TimingConstraints F → NodeId → Result DomainId
  unfolding find_sourced
  find_node_source_clock_domain c node_id = find_sourced c node_id c.domain_ids

  unfoldable pub node_is_clock_source : TimingConstraints F → NodeId → Result Bool
  unfolding find_node_source_clock_domain
  node_is_clock_source c id = do domain ← find_node_source_clock_domain c id; ok (is_valid domain)

  -- DomainId(n): the id is 16 bits wide, and its largest value is INVALID.
  abbrev pub domain_id : ℕ → DomainId
  domain_id n = if n % 65536 == 65535 then none else some (n % 65536)

  pub create_clock_domain : TimingConstraints F → Name → Result (DomainId × TimingConstraints F)
  unfolding find_clock_domain
  create_clock_domain c name = do
    id ← find_clock_domain c name
    elim (is_valid id) [
      | true ↦ ok (id, c)
      | false ↦ do
        let new_id = domain_id (length c.domain_ids)
        let c' = record c {
          domain_ids = push_back c.domain_ids new_id;
          domain_names = push_back c.domain_names name;
          domain_sources = push_back c.domain_sources none;
        }
        new_name ← clock_domain_name c' new_id
        check (same_name new_name name)
        found ← find_clock_domain c' name
        check (same_id found new_id)
        ok (new_id, c')
    ]

  pub set_clock_domain_source :
      TimingConstraints F → NodeId → DomainId → Result (TimingConstraints F)
  set_clock_domain_source c node_id id = do
    sources ← store c.domain_sources id node_id
    ok (record c { domain_sources = sources })

  -- What was found, or a default.
  abbrev pub or_else : Option F.Scalar → F.Scalar → F.Scalar
  or_else (some t) d = t
  or_else none d = d

  -- The constraint of a capture node, or that of the domain pair, or NaN.
  pub pair_constraint : List (NodeDomainPair × F.Scalar) → DomainId → DomainId → NodeId → F.Scalar
  unfolding lookup
  pair_constraint constraints src sink node =
      or_else (lookup same_node_pair (key src sink node) constraints)
        (or_else (lookup same_node_pair (key src sink none) constraints) F.nan)

  pub setup_constraint : TimingConstraints F → DomainId → DomainId → NodeId → F.Scalar
  unfolding pair_constraint
  setup_constraint c src sink node = pair_constraint c.setup_constraints src sink node

  pub hold_constraint : TimingConstraints F → DomainId → DomainId → NodeId → F.Scalar
  unfolding pair_constraint
  hold_constraint c src sink node = pair_constraint c.hold_constraints src sink node

  pub set_setup_constraint :
      TimingConstraints F → DomainId → DomainId → NodeId → F.Scalar → TimingConstraints F
  unfolding assign
  set_setup_constraint c src sink node t = record c {
    setup_constraints = assign same_node_pair (key src sink node) t c.setup_constraints;
  }

  pub set_hold_constraint :
      TimingConstraints F → DomainId → DomainId → NodeId → F.Scalar → TimingConstraints F
  unfolding assign
  set_hold_constraint c src sink node t = record c {
    hold_constraints = assign same_node_pair (key src sink node) t c.hold_constraints;
  }

  -- map.count(key)
  abbrev pub has : NodeDomainPair → List (NodeDomainPair × F.Scalar) → Bool
  has k constraints = elim (lookup same_node_pair k constraints) [ some t ↦ true | none ↦ false ]

  unfoldable pub should_analyze : TimingConstraints F → DomainId → DomainId → NodeId → Result Bool
  unfolding lookup
  should_analyze c src sink node = do
    check (is_valid src)
    check (is_valid sink)
    ok (
        has (key src sink node) c.setup_constraints
        || has (key src sink none) c.setup_constraints
        || has (key src sink node) c.hold_constraints
        || has (key src sink none) c.hold_constraints)

  pub setup_clock_uncertainty : TimingConstraints F → DomainId → DomainId → F.Scalar
  unfolding lookup
  setup_clock_uncertainty c src sink =
      or_else (lookup same_pair (pair_key src sink) c.setup_clock_uncertainties) F.zero_time

  pub hold_clock_uncertainty : TimingConstraints F → DomainId → DomainId → F.Scalar
  unfolding lookup
  hold_clock_uncertainty c src sink =
      or_else (lookup same_pair (pair_key src sink) c.hold_clock_uncertainties) F.zero_time

  pub set_setup_clock_uncertainty :
      TimingConstraints F → DomainId → DomainId → F.Scalar → TimingConstraints F
  unfolding assign
  set_setup_clock_uncertainty c src sink t = record c {
    setup_clock_uncertainties = assign same_pair (pair_key src sink) t c.setup_clock_uncertainties;
  }

  pub set_hold_clock_uncertainty :
      TimingConstraints F → DomainId → DomainId → F.Scalar → TimingConstraints F
  unfolding assign
  set_hold_clock_uncertainty c src sink t = record c {
    hold_clock_uncertainties = assign same_pair (pair_key src sink) t c.hold_clock_uncertainties;
  }
