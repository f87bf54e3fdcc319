-- ===== src/Args/Each.antt =====
-- Invariants of a loop over options.
use nvpkt.Base.{◌≡◌, Option, none, some, List, [], ◌∷◌, subst, ap}
use nvpkt.Args.{Opt, each}

-- what holds of a value, unless there is none
abbrev pub Holds {ℓ} : {A : Type ℓ} → (A → Type 0) → Option A → Type 0
Holds P none = Unit
Holds P (some a) = P a

module _ {A : Type 0} (P : A → Type 0) (step : A → Opt → Option A)
    (keeps : (a : A) (o : Opt) → P a → Holds P (step a o)) where
  each-Holds : (a : A) (os : List Opt) → P a → Holds P (each step a os)
  each-Holds a [] h = h
  each-Holds a (o ∷ os) h = go (step a o) (keeps a o h) (λ b k. each-Holds b os k)
    where
      go :
          (r : Option A)
          → Holds P r
          → ((b : A) → P b → Holds P (each step b os))
          → Holds P (elim r [ none ↦ none | some b ↦ each step b os ])
      go none k rest = tt
      go (some b) k rest = rest b k

  -- what each option keeps holds of the result
  pub each_lem : (a b : A) (os : List Opt) → P a → each step a os ≡ some b → P b
  each_lem a b os h e = subst (Holds P) e (each-Holds a os h)

-- one round of the loop
pub each-some {ℓ} :
    {A : Type ℓ} (step : A → Opt → Option A) {a b : A} (o : Opt) (os : List Opt)
    → step a o ≡ some b
    → each step a (o ∷ os) ≡ each step b os
each-some step o os e = ap (λ r. elim r [ none ↦ none | some c ↦ each step c os ]) e
