-- ===== src/Args/Known.antt =====
-- getopt returns nothing that its option string does not have.
use nvpkt.Base.{ℕ, ◌≡◌, refl, Option, none, some, Bool, true, false, List, [], ◌∷◌, subst}
use nvpkt.Args.{
  Text, Opt, flag, value, bad, cluster, Kind, end_mark, plain, letters, kind, getopt, each,
}
use nvpkt.Args.Each.{Holds}

-- an option of the option string, with an argument exactly if it takes one
abbrev pub IsKnown : (ℕ → Option Bool) → Opt → Type 0
IsKnown takes (flag c) = takes c ≡ some false
IsKnown takes (value c arg) = takes c ≡ some true
IsKnown takes bad = Unit

abbrev pub AllKnown : (ℕ → Option Bool) → List Opt → Type 0
AllKnown takes [] = Unit
AllKnown takes (o ∷ os) = IsKnown takes o × AllKnown takes os

module _ (takes : ℕ → Option Bool) where
  -- what follows the argument behind, if there is one
  abbrev NextKnown : Option (Text × List Opt) → Type 0
  NextKnown none = Unit
  NextKnown (some (arg, os)) = AllKnown takes os

  cluster-AllKnown :
      (cs : Text) (rest : List Opt) (next : Option (Text × List Opt))
      → AllKnown takes rest
      → NextKnown next
      → AllKnown takes (cluster takes cs rest next)
  unfolding cluster
  cluster-AllKnown [] rest next h k = h
  cluster-AllKnown (c ∷ []) rest next h k = last (takes c) refl next k
    where
      last :
          (t : Option Bool)
          → takes c ≡ t
          → (next : Option (Text × List Opt)) → NextKnown next
          → AllKnown takes (elim t [
            | none ↦ bad ∷ rest
            | some false ↦ flag c ∷ rest
            | some true ↦ elim next [ none ↦ bad ∷ [] | some (arg, more) ↦ value c arg ∷ more ]
          ])
      last none e next k = (tt, h)
      last (some false) e next k = (e, h)
      last (some true) e none k = (tt, tt)
      last (some true) e (some (arg, more)) k = (e, k)
  cluster-AllKnown (c ∷ d ∷ cs) rest next h k =
      first (takes c) refl (cluster-AllKnown (d ∷ cs) rest next h k)
    where
      first :
          (t : Option Bool)
          → takes c ≡ t
          → AllKnown takes (cluster takes (d ∷ cs) rest next)
          → AllKnown takes (elim t [
            | none ↦ bad ∷ cluster takes (d ∷ cs) rest next
            | some false ↦ flag c ∷ cluster takes (d ∷ cs) rest next
            | some true ↦ value c (d ∷ cs) ∷ rest
          ])
      first none e others = (tt, others)
      first (some false) e others = (e, others)
      first (some true) e others = (e, h)

  pub getopt-AllKnown : (args : List Text) → AllKnown takes (getopt takes args)
  unfolding getopt
  getopt-AllKnown [] = tt
  getopt-AllKnown (a ∷ []) = go (kind a)
    where
      go :
          (k : Kind)
          → AllKnown takes
              (elim k [ end_mark ↦ [] | plain ↦ [] | letters cs ↦ cluster takes cs [] none ])
      go end_mark = tt
      go plain = tt
      go (letters cs) = cluster-AllKnown cs [] none tt tt
  getopt-AllKnown (a ∷ b ∷ args) = go (kind a) (getopt-AllKnown (b ∷ args)) (getopt-AllKnown args)
    where
      go :
          (k : Kind)
          → AllKnown takes (getopt takes (b ∷ args))
          → AllKnown takes (getopt takes args)
          → AllKnown takes (elim k [
            | end_mark ↦ []
            | plain ↦ getopt takes (b ∷ args)
            | letters cs ↦ cluster takes cs (getopt takes (b ∷ args)) (some (b, getopt takes args))
          ])
      go end_mark rest more = tt
      go plain rest more = rest
      go (letters cs) rest more = cluster-AllKnown cs _ _ rest more

-- A loop over known options keeps what each of those keeps.
module _ {A : Type 0} (P : A → Type 0) (takes : ℕ → Option Bool) (step : A → Opt → Option A)
    (keeps : (a : A) (o : Opt) → IsKnown takes o → P a → Holds P (step a o)) where
  known-Holds : (a : A) (os : List Opt) → AllKnown takes os → P a → Holds P (each step a os)
  known-Holds a [] k h = h
  known-Holds a (o ∷ os) k h = go (step a o) (keeps a o k.0 h) (λ b j. known-Holds b os k.1 j)
    where
      go :
          (r : Option A)
          → Holds P r
          → ((b : A) → P b → Holds P (each step b os))
          → Holds P (elim r [ none ↦ none | some b ↦ each step b os ])
      go none k rest = tt
      go (some b) k rest = rest b k

  pub known_lem :
      (a b : A) (args : List Text) → P a → each step a (getopt takes args) ≡ some b → P b
  known_lem a b args h e = subst (Holds P) e (known-Holds a _ (getopt-AllKnown takes args) h)
