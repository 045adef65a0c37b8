-- ===== src/Constraints/Clocks.antt =====
-- The clock domains of TimingConstraints.cpp: create_clock_domain and find_clock_domain.
use tatum.Prelude.{
  ℕ, suc, ◌+◌, ◌<◌, ◌≡◌, refl, sym, ap, ◌∙◌, Bool, true, false, none, some, List, [], ◌∷◌, ◌++◌,
  arith, length, get_elem?, if◌then◌else◌, length-push, get-append, get_elem?-push, shift,
  Option-cases, Bool-cases, inl, inr,
}
use tatum.Result.{Result, ok}
use tatum.Container.{is_valid, push_back}
use tatum.Container.Laws.{same_id_refl}
use tatum.Time.{Float}
use tatum.Tags.Tag.{DomainId}
use tatum.Constraints.{
  TimingConstraints, Name, same_name, domain_id, find_named, find_clock_domain, create_clock_domain,
}

pub same_name_refl : (name : Name) → same_name name name ≡ true
unfolding same_name
same_name_refl [] = refl
same_name_refl (x ∷ xs) = ground (arith, same_name_refl xs)

-- The position of the first name that is the same as one that is sought.
unfoldable pub first_named : Name → List Name → ℕ → DomainId
first_named name [] i = none
first_named name (n ∷ ns) i = if same_name n name then some i else first_named name ns (suc i)

first_named-push :
    (name other : Name) (ns : List Name) (i : ℕ)
    → first_named other (ns ++ name ∷ []) i ≡ (elim (first_named other ns i) [
      | some j ↦ some j
      | none ↦ if same_name name other then some (i + length ns) else none
    ])
unfolding first_named
first_named-push name other [] i = ground arith
first_named-push name other (n ∷ ns) i = elim (Bool-cases (same_name n other)) [
  | inl hit ↦ rw hit refl
  | inr miss ↦
      rw (miss, first_named-push name other ns (suc i))
        (ap
          (λ k. elim (first_named other ns (suc i)) [
            | some j ↦ some j
            | none ↦ if same_name name other then some k else none
          ])
          (omega arith))
]

-- The ids of the domains are their positions, and every domain has a name and a source.
pub record HasDomains {F : Float} (c : TimingConstraints F) : Type 0 where
  pub numbered : (i : ℕ) (id : DomainId) → get_elem? c.domain_ids i ≡ some id → id ≡ some i
  pub names_size : length c.domain_names ≡ length c.domain_ids
  pub sources_size : length c.domain_sources ≡ length c.domain_ids

module _ (F : Float) where
  find_named_lem :
      (c : TimingConstraints F) (name : Name) (ids : List DomainId) (pre ns : List Name)
      → c.domain_names ≡ pre ++ ns
      → length ids ≡ length ns
      → ((i : ℕ) (id : DomainId) → get_elem? ids i ≡ some id → id ≡ some (length pre + i))
      → find_named F c name ids ≡ ok (first_named name ns (length pre))
  unfolding find_named first_named
  find_named_lem c name [] pre [] split size own = refl
  find_named_lem c name [] pre (n ∷ ns) split size own = absurd (omega (arith, size))
  find_named_lem c name (id ∷ ids) pre [] split size own = absurd (omega (arith, size))
  find_named_lem c name (id ∷ ids) pre (n ∷ ns) split size own =
      let here : id ≡ some (length pre) = own 0 id refl ∙ ap some (omega arith) in
      let later =
        find_named_lem c name ids (pre ++ n ∷ []) ns (split ∙ shift pre n ns) (omega (arith, size))
          (λ i y at_i. own (suc i) y at_i ∙ ap some (omega (arith, length-push pre n))) in
      let run : find_named F c name (some (length pre) ∷ ids) ≡ (elim (same_name n name) [
        | true ↦ ok (some (length pre))
        | false ↦ find_named F c name ids
      ]) =
        rw (split, get-append pre ns n) refl in
      ap (λ x. find_named F c name (x ∷ ids)) here
      ∙ run
      ∙ either (same_name n name) (find_named F c name ids)
          (later ∙ ap ok (ap (first_named name ns) (length-push pre n)))
    where
      either :
          (b : Bool) (r : Result DomainId)
          → r ≡ ok (first_named name ns (suc (length pre)))
          → (elim b [ true ↦ ok (some (length pre)) | false ↦ r ])
            ≡ ok (if b then some (length pre) else first_named name ns (suc (length pre)))
      either true r e = refl
      either false r e = e

  -- A search for a name finds the first domain that has it.
  find_clock_domain_lem :
      (c : TimingConstraints F) (name : Name)
      → HasDomains c
      → find_clock_domain F c name ≡ ok (first_named name c.domain_names 0)
  unfolding find_clock_domain
  find_clock_domain_lem c name h =
      find_named_lem c name c.domain_ids [] c.domain_names refl (sym h.names_size)
        (λ i id at_i. h.numbered i id at_i ∙ ap some (omega arith))

  -- The domains after a call of create_clock_domain.
  pub record Creates (c : TimingConstraints F) (name : Name) (id : DomainId)
      (c' : TimingConstraints F) : Type 0 where
    pub domains : HasDomains c'
    pub valid : is_valid id ≡ true
    pub found : find_clock_domain F c' name ≡ ok id
    pub others :
        (other : Name)
        → same_name name other ≡ false
        → find_clock_domain F c' other ≡ find_clock_domain F c other

  abbrev with_domain : TimingConstraints F → Name → TimingConstraints F
  with_domain c name = record c {
    domain_ids = push_back c.domain_ids (some (length c.domain_ids));
    domain_names = push_back c.domain_names name;
    domain_sources = push_back c.domain_sources none;
  }

  with_domain-HasDomains :
      (c : TimingConstraints F) (name : Name) → HasDomains c → HasDomains (with_domain c name)
  with_domain-HasDomains c name h = record {
    numbered = λ i id at_i.
        ground (
          arith,
          at_i,
          h.numbered i id,
          get_elem?-push c.domain_ids (some (length c.domain_ids)) i,
        );
    names_size = omega (
      arith,
      h.names_size,
      length-push c.domain_names name,
      length-push c.domain_ids (some (length c.domain_ids)),
    );
    sources_size = omega (
      arith,
      h.sources_size,
      length-push c.domain_sources none,
      length-push c.domain_ids (some (length c.domain_ids)),
    );
  }

  with_domain-Creates :
      (c : TimingConstraints F) (name : Name)
      → HasDomains c
      → first_named name c.domain_names 0 ≡ none
      → Creates c name (some (length c.domain_ids)) (with_domain c name)
  with_domain-Creates c name h missing =
      let h' = with_domain-HasDomains c name h in
      record {
        domains = h';
        valid = refl;
        found =
            find_clock_domain_lem (with_domain c name) name h'
            ∙ ap ok (
                first_named-push name name c.domain_names 0
                ∙ rw (missing, same_name_refl name) (ap some (omega (arith, h.names_size))));
        others = λ other differs.
            find_clock_domain_lem (with_domain c name) other h'
            ∙ ap ok (first_named-push name other c.domain_names 0 ∙ unchanged other differs)
            ∙ sym (find_clock_domain_lem c other h);
      }
    where
      unchanged :
          (other : Name)
          → same_name name other ≡ false
          → (elim (first_named other c.domain_names 0) [
            | some j ↦ some j
            | none ↦ if same_name name other then some (0 + length c.domain_names) else none
          ])
            ≡ first_named other c.domain_names 0
      unchanged other differs = elim (Option-cases (first_named other c.domain_names 0)) [
        | inl m ↦ rw (m, differs) refl
        | inr (j, e) ↦ rw e refl
      ]

  -- While the ids of the clock domains are their positions, every domain has a name and a source, and there are fewer than
  -- 65535 of them, create_clock_domain returns: its assertions hold. The id it returns is valid and is the one
  -- that is found for the name afterwards, the search for every other name finds what it found before, and
  -- the ids are positions again.
  pub create_clock_domain-Creates :
      (c : TimingConstraints F) (name : Name)
      → HasDomains c
      → length c.domain_ids < 65535
      → (id : DomainId) × (c' : TimingConstraints F) × (create_clock_domain F c name ≡ ok (id, c'))
        × Creates c name id c'
  unfolding create_clock_domain
  create_clock_domain-Creates c name h few =
      elim (Option-cases (first_named name c.domain_names 0)) [
        | inl missing ↦
            let size = length c.domain_ids in
            let created = with_domain-Creates c name h missing in
            let absent : find_clock_domain F c name ≡ ok none =
              find_clock_domain_lem c name h ∙ ap ok missing in
            let fits : domain_id F size ≡ some size = ground arith in
            let named : get_elem? (c.domain_names ++ name ∷ []) size ≡ some name =
              ground (arith, get_elem?-push c.domain_names name size, h.names_size) in
            (
              some size,
              with_domain c name,
              rw absent (
                  rw (fits, named)
                    (rw (same_name_refl name)
                      (rw created.found (rw (same_id_refl (some size)) refl)))),
              created,
            )
        | inr (i, there) ↦
            let found : find_clock_domain F c name ≡ ok (some i) =
              find_clock_domain_lem c name h ∙ ap ok there in
            (
              some i,
              c,
              rw found refl,
              record { domains = h; valid = refl; found = found; others = λ other _. refl },
            )
      ]
