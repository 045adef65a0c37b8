-- ===== src/Analysis/Critical/Best.antt =====
-- The list of critical paths in libtatum/tatum/timing_paths.cpp as a map from pairs of clock domains.
use tatum.Prelude.{
  ◌≡◌, ◌≢◌, refl, sym, ◌∙◌, inl, inr, Bool, true, false, ◌&&◌, Option, none, some, List, [], ◌∷◌,
  if◌then◌else◌, Bool-cases, arith,
}
use tatum.Container.{same_id}
use tatum.Container.Laws.{same_id→eq}
use tatum.Time.{Float}
use tatum.Tags.Tag.{DomainId}
use tatum.Analysis.Critical.{TimingPathInfo, record_path}

module _ (F : Float) where
  -- Whether a path is between two domains.
  abbrev pub joins : TimingPathInfo F → DomainId → DomainId → Bool
  joins path launch capture =
      same_id path.launch_domain launch && same_id path.capture_domain capture

  -- The first path between two domains.
  abbrev pub best : List (TimingPathInfo F) → DomainId → DomainId → Option (TimingPathInfo F)
  best [] launch capture = none
  best (path ∷ paths) launch capture =
      if joins path launch capture then some path else best paths launch capture

  -- The path with more delay; the earlier one if the new one has not more.
  abbrev pub slower : Option (TimingPathInfo F) → TimingPathInfo F → TimingPathInfo F
  slower none path = path
  slower (some old) path = if F.lt old.delay path.delay then path else old

  true≢false : true ≢ false
  true≢false e = cc

  joins→eq :
      (path : TimingPathInfo F) (launch capture : DomainId)
      → joins path launch capture ≡ true
      → (path.launch_domain ≡ launch) × (path.capture_domain ≡ capture)
  joins→eq path launch capture h = (
    same_id→eq path.launch_domain launch (ground arith),
    same_id→eq path.capture_domain capture (ground arith),
  )

  -- A path between the same domains joins the same ones.
  joins_same :
      (e p : TimingPathInfo F) (launch capture : DomainId)
      → joins e p.launch_domain p.capture_domain ≡ true
      → joins e launch capture ≡ joins p launch capture
  joins_same e p launch capture h =
      let (l, c) = joins→eq e p.launch_domain p.capture_domain h in rw (l, c) refl

  -- Recording a path changes what is found for its own two domains, which is then the slower of this
  -- path and the one found before, and for no other pair of domains.
  pub record_path-best :
      (path : TimingPathInfo F) (paths : List (TimingPathInfo F)) (launch capture : DomainId)
      → best (record_path F path paths) launch capture ≡ (
          if joins path launch capture
          then some (slower (best paths launch capture) path)
          else best paths launch capture)
  unfolding record_path
  record_path-best path [] launch capture = refl
  record_path-best path (e ∷ es) launch capture =
      elim (Bool-cases (joins e path.launch_domain path.capture_domain)) [
        | inl same ↦ elim (Bool-cases (F.lt e.delay path.delay)) [
          | inl less ↦ elim (Bool-cases (joins path launch capture)) [
            | inl here ↦
                rw (same, less, here, joins_same e path launch capture same ∙ here, less) refl
            | inr away ↦ rw (same, less, away, joins_same e path launch capture same ∙ away) refl
          ]
          | inr more ↦ elim (Bool-cases (joins path launch capture)) [
            | inl here ↦
                rw (same, more, here, joins_same e path launch capture same ∙ here, more) refl
            | inr away ↦ rw (same, more, away, joins_same e path launch capture same ∙ away) refl
          ]
        ]
        | inr other ↦ elim (Bool-cases (joins e launch capture)) [
          | inl here ↦
              rw (other, here)
                (elim (Bool-cases (joins path launch capture)) [
                  | inl joined ↦
                      let (l, c) = joins→eq path launch capture joined in
                      let same : joins e path.launch_domain path.capture_domain ≡ true =
                        rw (l, c) here in
                      absurd (true≢false (sym same ∙ other))
                  | inr apart ↦ rw apart refl
                ])
          | inr away ↦ rw (other, away) (record_path-best path es launch capture)
        ]
      ]
