-- ===== src/Constraints/Lookup.antt =====
-- What a constraint on a domain pair or a capture node says afterwards.
use tatum.Prelude.{ℕ, ◌≡◌, refl, Bool, true, false, ◌&&◌, none, some, if◌then◌else◌}
use tatum.Container.Laws.{same_id_refl, same_id→eq}
use tatum.Time.{Float}
use tatum.Graph.{NodeId}
use tatum.Tags.Tag.{DomainId}
use tatum.Constraints.Maps.{Decides, lookup, lookup-assign}
use tatum.Constraints.{
  TimingConstraints, same_node_pair, key, setup_constraint, set_setup_constraint, pair_constraint,
}

both : (a b : Bool) → (a && b) ≡ true → (a ≡ true) × (b ≡ true)
both true b h = (refl, h)
both false b h = absurd cc

pub same_node_pair-Decides : Decides same_node_pair
same_node_pair-Decides = record {
  reflexive = λ k.
      rw
        (
          same_id_refl k.capture_node,
          same_id_refl k.domain_pair.src_domain_id,
          same_id_refl k.domain_pair.sink_domain_id,
        )
        refl;
  sound = λ j k h.
      let (n, p) = both _ _ h in
      let (s, t) = both _ _ p in
      let same_src = same_id→eq j.domain_pair.src_domain_id k.domain_pair.src_domain_id s in
      let same_sink = same_id→eq j.domain_pair.sink_domain_id k.domain_pair.sink_domain_id t in
      let same_node = same_id→eq j.capture_node k.capture_node n in
      λ i. record {
        domain_pair = record { src_domain_id = same_src i; sink_domain_id = same_sink i };
        capture_node = same_node i;
      };
}

module _ (F : Float) (c : TimingConstraints F) (src sink : DomainId) (t : F.Scalar) where
  -- What each of the two look-ups finds after an assignment.
  found :
      (node : NodeId) (src' sink' : DomainId) (node' : NodeId)
      → lookup same_node_pair
          (key src' sink' node')
          (set_setup_constraint F c src sink node t).setup_constraints
        ≡ (if same_node_pair (key src sink node) (key src' sink' node')
            then some t
            else lookup same_node_pair (key src' sink' node') c.setup_constraints)
  unfolding set_setup_constraint
  found node src' sink' node' =
      lookup-assign same_node_pair (key src sink node) (key src' sink' node') t c.setup_constraints
        same_node_pair-Decides

  -- A setup constraint that is set for two domains and a capture node, or for all capture nodes, is
  -- the one found for the same arguments, whatever was set before.
  pub set_setup_constraint-same :
      (id : NodeId) → setup_constraint F (set_setup_constraint F c src sink id t) src sink id ≡ t
  unfolding setup_constraint pair_constraint
  set_setup_constraint-same id =
      rw (found id src sink id, same_node_pair-Decides.reflexive (key src sink id)) refl

  -- A setup constraint that is set for two domains and all capture nodes is found for a capture node that
  -- has none of its own.
  pub set_setup_constraint-fallback :
      (n : ℕ)
      → lookup same_node_pair (key src sink (some n)) c.setup_constraints ≡ none
      → setup_constraint F (set_setup_constraint F c src sink none t) src sink (some n) ≡ t
  unfolding setup_constraint pair_constraint
  set_setup_constraint-fallback n unset =
      rw
        (
          found none src sink (some n),
          unset,
          found none src sink none,
          same_node_pair-Decides.reflexive (key src sink none),
        )
        refl

  -- A setup constraint that is set for a capture node leaves the setup constraint of every other capture
  -- node, and that of every other pair of domains, as it was.
  pub set_setup_constraint-other :
      (n : ℕ) (src' sink' : DomainId) (id : NodeId)
      → same_node_pair (key src sink (some n)) (key src' sink' id) ≡ false
      → setup_constraint F (set_setup_constraint F c src sink (some n) t) src' sink' id
        ≡ setup_constraint F c src' sink' id
  unfolding setup_constraint pair_constraint
  set_setup_constraint-other n src' sink' id other =
      rw (found (some n) src' sink' id, other, found (some n) src' sink' none) refl
