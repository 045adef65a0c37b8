-- ===== src/Result/Pairs.antt =====
-- A run that does the work of two: where both return, it returns what is related to both values.
use tatum.Prelude.{◌≡◌, subst, List, [], ◌∷◌}
use tatum.Result.{Result, Fault, ok, err, for_each, ◌>>=◌}
use tatum.Result.Ends.{Returns}

module _ {A B C : Type 0} where
  abbrev pub Both : (A → B → C → Type 0) → Result A → Result B → Result C → Type 0
  Both R (err fault) right run = Unit {0}
  Both R (ok a) (err fault) run = Unit {0}
  Both R (ok a) (ok b) run = Returns (R a b) run

  Both-err :
      (R : A → B → C → Type 0) (left : Result A) (fault : Fault) (run : Result C)
      → Both R left (err fault) run
  Both-err R (err other) fault run = tt
  Both-err R (ok a) fault run = tt

  pub Both→Returns :
      (R : A → B → C → Type 0) (left : Result A) (right : Result B) (run : Result C) (a : A) (b : B)
      → Both R left right run
      → left ≡ ok a
      → right ≡ ok b
      → Returns (R a b) run
  Both→Returns R left right run a b h l r =
      subst (λ x. Both R (ok a) x run) r (subst (λ x. Both R x right run) l h)

module _ {A B C A' B' C' : Type 0} where
  pub Both-bind :
      (R : A → B → C → Type 0) (R' : A' → B' → C' → Type 0) (left : Result A) (right : Result B)
      (run : Result C) (next : A → Result A') (next' : B → Result B') (then : C → Result C')
      → Both R left right run
      → ((a : A) (b : B) (c : C) → R a b c → Both R' (next a) (next' b) (then c))
      → Both R' (left >>= next) (right >>= next') (run >>= then)
  Both-bind R R' (err fault) right run next next' then h k = tt
  Both-bind R R' (ok a) (err fault) run next next' then h k =
      Both-err R' (next a) fault (run >>= then)
  Both-bind R R' (ok a) (ok b) (err fault) next next' then h k = absurd h
  Both-bind R R' (ok a) (ok b) (ok c) next next' then h k = k a b c h

module _ {X A B C : Type 0} where
  -- The three begin in the same way.
  pub Both-same :
      (R : A → B → C → Type 0) (first : Result X) (next : X → Result A) (next' : X → Result B)
      (then : X → Result C)
      → ((x : X) → Both R (next x) (next' x) (then x))
      → Both R (first >>= next) (first >>= next') (first >>= then)
  Both-same R (err fault) next next' then k = tt
  Both-same R (ok x) next next' then k = k x

module _ {X A B C : Type 0} where
  pub Both-for_each :
      (R : A → B → C → Type 0) (xs : List X) (a : A) (b : B) (c : C) (body : X → A → Result A)
      (body' : X → B → Result B) (run : X → C → Result C)
      → R a b c
      → ((x : X) (a' : A) (b' : B) (c' : C)
          → R a' b' c'
          → Both R (body x a') (body' x b') (run x c'))
      → Both R (for_each xs a body) (for_each xs b body') (for_each xs c run)
  unfolding for_each
  Both-for_each R [] a b c body body' run h k = h
  Both-for_each R (x ∷ xs) a b c body body' run h k =
      Both-bind R R (body x a) (body' x b) (run x c) _ _ _ (k x a b c h)
        (λ a' b' c' h'. Both-for_each R xs a' b' c' body body' run h' k)
