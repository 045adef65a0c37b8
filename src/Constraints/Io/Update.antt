-- ===== src/Constraints/Io/Update.antt =====
-- What the constraints of inputs and outputs in TimingConstraints.cpp say after one of them is set.
use tatum.Prelude.{
  ◌≡◌, refl, sym, ◌∙◌, Bool, true, false, ◌&&◌, [], ◌∷◌, if◌then◌else◌, Bool-cases, inl, inr,
}
use tatum.Container.{same_id}
use tatum.Container.Laws.{same_id_refl, same_id→eq}
use tatum.Time.{Float}
use tatum.Graph.{NodeId}
use tatum.Tags.Tag.{DomainId}
use tatum.Constraints.{TimingConstraints, IoConstraints, DelayType, max, min}
use tatum.Constraints.Io.{
  find_io_constraint, set_io_constraint, constraint_of, input_constraint, output_constraint,
  set_input_constraint, set_output_constraint,
}

-- operator== on DelayType
abbrev pub same_delay : DelayType → DelayType → Bool
same_delay max max = true
same_delay min min = true
same_delay _ _ = false

and_parts : (a b : Bool) → (a && b) ≡ true → (a ≡ true) × (b ≡ true)
and_parts true b h = (refl, h)
and_parts false b h = absurd cc

module _ (F : Float) (n n' : NodeId) (d d' : DomainId) (t : F.Scalar) where
  abbrev here : Bool
  here = same_id n n' && same_id d d'

  -- The entry of one key is not the entry of another.
  differs :
      (m : NodeId) (e : DomainId)
      → (same_id m n && same_id e d) ≡ false
      → (same_id m n' && same_id e d') ≡ true
      → here ≡ false
  differs m e miss there = elim (Bool-cases here) [
    | inl same ↦
        let (n_eq, d_eq) = and_parts _ _ same in
        let (m_eq, e_eq) = and_parts _ _ there in
        let m_n : m ≡ n = same_id→eq m n' m_eq ∙ sym (same_id→eq n n' n_eq) in
        let e_d : e ≡ d = same_id→eq e d' e_eq ∙ sym (same_id→eq d d' d_eq) in
        let hit : (same_id m n && same_id e d) ≡ true =
          rw (m_n, e_d, same_id_refl n) (same_id_refl d) in
        absurd cc
    | inr other ↦ other
  ]

  constraint_after :
      (ios : IoConstraints F)
      → constraint_of F (find_io_constraint F n' d' (set_io_constraint F n d t ios))
        ≡ (if here then t else constraint_of F (find_io_constraint F n' d' ios))
  unfolding find_io_constraint set_io_constraint
  constraint_after [] = elim (Bool-cases here) [ inl e ↦ rw e refl | inr e ↦ rw e refl ]
  constraint_after ((m, io) ∷ rest) = elim (Bool-cases (same_id m n && same_id io.domain d)) [
    | inl hit ↦
        let (m_eq, e_eq) = and_parts _ _ hit in
        let m_n : m ≡ n = same_id→eq m n m_eq in
        let e_d : io.domain ≡ d = same_id→eq io.domain d e_eq in
        elim (Bool-cases here) [
          | inl e ↦ rw hit (rw (m_n, e_d) (rw e refl))
          | inr e ↦ rw hit (rw (m_n, e_d) (rw e refl))
        ]
    | inr miss ↦ elim (Bool-cases (same_id m n' && same_id io.domain d')) [
      | inl there ↦ rw miss (rw (there, differs m io.domain miss there) refl)
      | inr elsewhere ↦ rw miss (rw elsewhere (constraint_after rest))
    ]
  ]

  -- A constraint set on an input, for a domain and for the maximum or the minimum delay, is the one found
  -- for that input, domain and delay, whether one was set before or not, and every other constraint on inputs
  -- is found as it was before.
  pub set_input_constraint-input_constraint :
      (c : TimingConstraints F) (delay delay' : DelayType)
      → input_constraint F (set_input_constraint F c n d delay t) n' d' delay' ≡ (
          if same_delay delay delay' && (same_id n n' && same_id d d')
          then t
          else input_constraint F c n' d' delay')
  unfolding input_constraint set_input_constraint
  set_input_constraint-input_constraint c max max = constraint_after c.max_input_constraints
  set_input_constraint-input_constraint c max min = refl
  set_input_constraint-input_constraint c min max = refl
  set_input_constraint-input_constraint c min min = constraint_after c.min_input_constraints

  -- A constraint set on an output, for a domain and for the maximum or the minimum delay, is the one found
  -- for that output, domain and delay, whether one was set before or not, and every other constraint on outputs
  -- is found as it was before.
  pub set_output_constraint-output_constraint :
      (c : TimingConstraints F) (delay delay' : DelayType)
      → output_constraint F (set_output_constraint F c n d delay t) n' d' delay' ≡ (
          if same_delay delay delay' && (same_id n n' && same_id d d')
          then t
          else output_constraint F c n' d' delay')
  unfolding output_constraint set_output_constraint
  set_output_constraint-output_constraint c max max = constraint_after c.max_output_constraints
  set_output_constraint-output_constraint c max min = refl
  set_output_constraint-output_constraint c min max = refl
  set_output_constraint-output_constraint c min min = constraint_after c.min_output_constraints
