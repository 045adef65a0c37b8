-- ===== src/Constraints/Maps.antt =====
-- A map as an association list: what std::map's find and operator[] do.
use tatum.Prelude.{
  ◌≡◌, refl, Bool, true, false, Option, none, some, List, [], ◌∷◌, inl, inr, Bool-cases,
  if◌then◌else◌, sym, ap, ◌∙◌,
}

-- A test of the keys that decides their equality.
pub record Decides {ℓ} {K : Type ℓ} (same : K → K → Bool) : Type ℓ where
  pub reflexive : (k : K) → same k k ≡ true
  pub sound : (j k : K) → same j k ≡ true → j ≡ k

true≢false : ¬ (true ≡ false)
true≢false h = cc

-- A key that differs from `k` and is the same as `k'` tells the two apart.
apart {ℓ} :
    {K : Type ℓ} (same : K → K → Bool) (j k k' : K)
    → Decides same
    → same j k ≡ false
    → same j k' ≡ true
    → same k k' ≡ false
apart same j k k' d miss there = elim (Bool-cases (same k k')) [
  | inl e ↦
      let joined : j ≡ k = d.sound j k' there ∙ sym (d.sound k k' e) in
      let self : same j k ≡ true = ap (λ x. same x k) joined ∙ d.reflexive k in
      absurd (true≢false (sym self ∙ miss))
  | inr h ↦ h
]

module _ {ℓ κ} {K : Type ℓ} {V : Type κ} where
  -- find
  unfoldable pub lookup : (K → K → Bool) → K → List (K × V) → Option V
  lookup same k [] = none
  lookup same k ((j, v) ∷ entries) = if same j k then some v else lookup same k entries

  -- operator[] and an assignment
  unfoldable pub assign : (K → K → Bool) → K → V → List (K × V) → List (K × V)
  assign same k v [] = (k, v) ∷ []
  assign same k v ((j, w) ∷ entries) =
      let rest = assign same k v entries in if same j k then (j, v) ∷ entries else (j, w) ∷ rest

  pub lookup-assign :
      (same : K → K → Bool) (k k' : K) (v : V) (entries : List (K × V))
      → Decides same
      → lookup same k' (assign same k v entries)
        ≡ (if same k k' then some v else lookup same k' entries)
  unfolding lookup assign
  lookup-assign same k k' v [] d = refl
  lookup-assign same k k' v ((j, w) ∷ entries) d = elim (Bool-cases (same j k)) [
    | inl hit ↦
        let e = ap (λ x. same x k') (d.sound j k hit) in
        elim (Bool-cases (same k k')) [
          | inl here ↦ rw (hit, e, here) refl
          | inr other ↦ rw (hit, e, other) refl
        ]
    | inr miss ↦ elim (Bool-cases (same j k')) [
      | inl there ↦ let other = apart same j k k' d miss there in rw (miss, there, other) refl
      | inr elsewhere ↦ rw (miss, elsewhere) (lookup-assign same k k' v entries d)
    ]
  ]
