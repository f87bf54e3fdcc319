-- ===== src/Args.antt =====
-- What the tools use of the C library to read their arguments: getopt with its option string, and
-- strncmp; Numbers has atoi and strtol. A text is a list of bytes, without the NUL at its end.
pub mod Numbers
pub mod Print
pub mod Line
pub mod Each
pub mod Known
use Prim.Native.Char.{code}
use Prim.Native.String.{String}
use nvpkt.Base.{ℕ, Bool, true, false, List, [], ◌∷◌, ◌++◌, Option, none, some, ◌==◌, if◌then◌else◌}

abbrev pub Text : Type 0
Text = List ℕ

-- the bytes of a text of ASCII
abbrev pub codes : String → Text
codes String.[] = []
codes (String.◌∷◌ c s) = code c ∷ codes s

-- lines, each with a line feed behind it
abbrev pub lines : List Text → Text
lines [] = []
lines (s ∷ ss) = s ++ (10 ∷ lines ss)

-- `strncmp(s, prefix, strlen(prefix)) == 0`
abbrev pub starts_with : Text → Text → Bool
starts_with s [] = true
starts_with [] (p ∷ ps) = false
starts_with (c ∷ cs) (p ∷ ps) = let rest = starts_with cs ps in if c == p then rest else false

-- What one call of getopt returns: an option, an option with `optarg`, or '?'.
pub data Opt : Type 0 where
  flag : ℕ → Opt
  value : ℕ → Text → Opt
  bad : Opt

-- An option string, by option: whether it has an argument; `none` for a letter that is no option, and
-- for a colon.
abbrev pub takes : Text → ℕ → Option Bool
takes [] c = none
takes (o ∷ []) c = if o == b':' then none else if o == c then some false else none
takes (o ∷ p ∷ os) c =
    let rest = takes (p ∷ os) c in
    if o == b':' then rest else if o == c then some (p == b':') else rest

-- The letters of one argument behind its dash. `rest` are the options of the arguments behind it;
-- `next` is the argument behind it, with the options behind that one.
unfoldable pub cluster : (ℕ → Option Bool) → Text → List Opt → Option (Text × List Opt) → List Opt
cluster takes [] rest next = rest
cluster takes (c ∷ []) rest next = elim (takes c) [
  | none ↦ bad ∷ rest
  | some false ↦ flag c ∷ rest
  | some true ↦ elim next [ none ↦ bad ∷ [] | some (arg, more) ↦ value c arg ∷ more ]
]
cluster takes (c ∷ d ∷ cs) rest next =
    let others = cluster takes (d ∷ cs) rest next in
    elim (takes c) [
      | none ↦ bad ∷ others
      | some false ↦ flag c ∷ others
      | some true ↦ value c (d ∷ cs) ∷ rest
    ]

-- An argument: `--`, the letters behind a dash, or neither, which getopt passes over.
pub data Kind : Type 0 where
  end_mark plain : Kind
  letters : Text → Kind

abbrev pub kind : Text → Kind
kind [] = plain
kind (c ∷ []) = plain
kind (c ∷ d ∷ []) = if c == b'-' then (if d == b'-' then end_mark else letters (d ∷ [])) else plain
kind (c ∷ d ∷ e ∷ cs) = if c == b'-' then letters (d ∷ e ∷ cs) else plain

-- All that getopt returns for the arguments, up to -1; a program that gets '?' stops before.
unfoldable pub getopt : (ℕ → Option Bool) → List Text → List Opt
unfolding cluster
getopt takes [] = []
getopt takes (a ∷ []) = elim (kind a) [
  | end_mark ↦ []
  | plain ↦ []
  | letters cs ↦ cluster takes cs [] none
]
getopt takes (a ∷ b ∷ args) =
    let rest = getopt takes (b ∷ args) in
    let more = getopt takes args in
    elim (kind a) [
      | end_mark ↦ []
      | plain ↦ rest
      | letters cs ↦ cluster takes cs rest (some (b, more))
    ]

-- `while ((ch = getopt(...)) != -1) switch (ch)`, over the case of each option; `none` is a return
-- from within.
abbrev pub each {ℓ} : {A : Type ℓ} → (A → Opt → Option A) → A → List Opt → Option A
each step a [] = some a
each step a (o ∷ os) = elim (step a o) [ none ↦ none | some b ↦ each step b os ]
