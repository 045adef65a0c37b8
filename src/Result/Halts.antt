-- ===== src/Result/Halts.antt =====
-- Runs that do not use up fuel, whatever else becomes of them.
use tatum.Prelude.{
  ◌≢◌, Bool, true, false, Option, none, some, List, [], ◌∷◌, if◌then◌else◌, ltb, length, set,
}
use tatum.Result.{
  Result, ok, err, out_of_fuel, out_of_range, assertion, check, or_fault, for_each, ◌>>=◌, ◌>>◌,
}
use tatum.Result.Ends.{Ends}
use tatum.Container.{StrongId, at, store}

pub record Halts {A : Type 0} (run : Result A) : Type 0 where
  pub fueled : run ≢ err out_of_fuel

module _ {A : Type 0} where
  pub Halts→Ends : (run : Result A) → Halts run → Ends (λ a. Unit {0}) run
  Halts→Ends (err fault) h = λ e. h.fueled cc
  Halts→Ends (ok a) h = tt

  pub Halts-ok : (a : A) → Halts (ok a)
  Halts-ok a = record { fueled = λ e. cc }

  pub Halts-assertion : Halts {A = A} (err assertion)
  Halts-assertion = record { fueled = λ e. cc }

  pub Halts-out_of_range : Halts {A = A} (err out_of_range)
  Halts-out_of_range = record { fueled = λ e. cc }

  pub Halts-or_fault : (a : Option A) → Halts (or_fault a out_of_range)
  Halts-or_fault none = record { fueled = λ e. cc }
  Halts-or_fault (some a) = record { fueled = λ e. cc }

  pub Halts-if :
      (b : Bool) (run other : Result A) → Halts run → Halts other → Halts (if b then run else other)
  Halts-if true run other h k = h
  Halts-if false run other h k = k

  pub Halts-branch :
      (b : Bool) (run other : Result A)
      → Halts run
      → Halts other
      → Halts (elim b [ true ↦ run | false ↦ other ])
  Halts-branch true run other h k = h
  Halts-branch false run other h k = k

  pub Halts-check : (b : Bool) (run : Result A) → Halts run → Halts (check b >> run)
  Halts-check true run h = h
  Halts-check false run h = record { fueled = λ e. cc }

  pub Halts-after :
      (first : Result (Unit {0})) (run : Result A) → Halts first → Halts run → Halts (first >> run)
  Halts-after (err fault) run h k = record { fueled = λ e. h.fueled cc }
  Halts-after (ok u) run h k = k

module _ {A : Type 0} where
  pub Halts-at : (vec : List A) (id : StrongId) → Halts (at vec id)
  Halts-at vec none = record { fueled = λ e. cc }
  Halts-at vec (some i) = Halts-or_fault _

  pub Halts-store : (vec : List A) (id : StrongId) (a : A) → Halts (store vec id a)
  Halts-store vec none a = record { fueled = λ e. cc }
  Halts-store vec (some i) a =
      Halts-if (ltb i (length vec)) (ok (set vec i a)) (err out_of_range) (Halts-ok _)
        Halts-out_of_range

pub Halts-checked : (b : Bool) → Halts (check b)
Halts-checked true = record { fueled = λ e. cc }
Halts-checked false = record { fueled = λ e. cc }

module _ {A B : Type 0} where
  pub Halts-bind :
      (run : Result A) (next : A → Result B)
      → Halts run
      → ((a : A) → Halts (next a))
      → Halts (run >>= next)
  Halts-bind (err fault) next h k = record { fueled = λ e. h.fueled cc }
  Halts-bind (ok a) next h k = k a

  pub Halts-empty :
      (xs : List A) (run : Result B) (other : A → List A → Result B)
      → Halts run
      → ((x : A) (rest : List A) → Halts (other x rest))
      → Halts (elim xs [ [] ↦ run | x ∷ rest ↦ other x rest ])
  Halts-empty [] run other h k = h
  Halts-empty (x ∷ xs) run other h k = k x xs

module _ {A B : Type 0} where
  pub Halts-for_each :
      (xs : List A) (b : B) (body : A → B → Result B)
      → ((x : A) (b' : B) → Halts (body x b'))
      → Halts (for_each xs b body)
  unfolding for_each
  Halts-for_each [] b body k = Halts-ok b
  Halts-for_each (x ∷ xs) b body k =
      Halts-bind (body x b) _ (k x b) (λ b'. Halts-for_each xs b' body k)

pub ruleset halts_rules = (
  Halts-ok, Halts-assertion, Halts-out_of_range, Halts-or_fault, Halts-if, Halts-branch,
  Halts-check, Halts-after, Halts-at, Halts-store, Halts-checked, Halts-bind, Halts-empty,
  Halts-for_each,
)
