-- ===== src/Args/Line.antt =====
-- Options in front of a command line, written as arguments of their own.
use nvpkt.Base.{ℕ, ◌≡◌, ◌≢◌, true, false, List, [], ◌∷◌, Option, some, Bool, arith}
use nvpkt.Args.{Text, flag, value, getopt}

-- `-c`
abbrev pub dash : ℕ → Text
dash c = b'-' ∷ c ∷ []

module _ (takes : ℕ → Option Bool) (c : ℕ) (letter : c ≢ b'-') where
  -- an option without an argument
  pub getopt-flag :
      (args : List Text)
      → takes c ≡ some false
      → getopt takes (dash c ∷ args) ≡ flag c ∷ getopt takes args
  unfolding getopt
  getopt-flag [] e = ground (arith, letter)
  getopt-flag (a ∷ args) e = ground (arith, letter)

  -- an option with its argument behind it, whatever that begins with
  pub getopt-value :
      (arg : Text) (args : List Text)
      → takes c ≡ some true
      → getopt takes (dash c ∷ arg ∷ args) ≡ value c arg ∷ getopt takes args
  unfolding getopt
  getopt-value arg args e = ground (arith, letter)
