-- ===== src/Bench/Args/Bounds.antt =====
-- userland-driver/tools/bench-nvme.c, `main`: what the loop over the options lets through.
use nvpkt.Base.{◌≡◌, refl, some, List, ℤ, pos, ◌≤ℤ◌, ◌⊎◌, inl, arith}
use nvpkt.Args.{Text, Opt, flag, value, bad, getopt}
use nvpkt.Args.Each.{Holds, each_lem}
use nvpkt.Args.Numbers.{atoi}
use nvpkt.Bench.Args.{
  Config, initial, set_mode, set_walk, set_size, set_batch, set_ncpus, set_option, parse_args,
  option_string,
}

-- The bounds of a configuration; only the number of cpus is held against the machine.
pub record IsInBounds (online : ℤ) (p : Config) : Type 0 where
  pub size : pos 0 ≤ℤ p.size
  pub batch : (pos 0 ≤ℤ p.batch) × (p.batch ≤ℤ pos 258)
  pub some_cpu : pos 1 ≤ℤ p.ncpus
  pub ncpus : (p.ncpus ≡ pos 1) ⊎ (p.ncpus ≤ℤ online)

initial-IsInBounds : (online : ℤ) → IsInBounds online initial
initial-IsInBounds online = record {
  size = omega arith;
  batch = (omega arith, omega arith);
  some_cpu = omega arith;
  ncpus = inl refl;
}

set_mode-IsInBounds :
    (online : ℤ) (p : Config) (arg : Text)
    → IsInBounds online p
    → Holds (IsInBounds online) (set_mode p arg)
unfolding set_mode
set_mode-IsInBounds online p arg h = ground arith

set_walk-IsInBounds :
    (online : ℤ) (p : Config) (arg : Text)
    → IsInBounds online p
    → Holds (IsInBounds online) (set_walk p arg)
unfolding set_walk
set_walk-IsInBounds online p arg h = ground arith

set_size-IsInBounds :
    (online : ℤ) (p : Config) (size : ℤ)
    → IsInBounds online p
    → Holds (IsInBounds online) (set_size p size)
unfolding set_size
set_size-IsInBounds online p size h = ground arith

set_batch-IsInBounds :
    (online : ℤ) (p : Config) (batch : ℤ)
    → IsInBounds online p
    → Holds (IsInBounds online) (set_batch p batch)
unfolding set_batch
set_batch-IsInBounds online p batch h = ground arith

set_ncpus-IsInBounds :
    (online : ℤ) (p : Config) (ncpus : ℤ)
    → IsInBounds online p
    → Holds (IsInBounds online) (set_ncpus online p ncpus)
unfolding set_ncpus
set_ncpus-IsInBounds online p ncpus h = ground arith

set_option-IsInBounds :
    (online : ℤ) (p : Config) (o : Opt)
    → IsInBounds online p
    → Holds (IsInBounds online) (set_option online p o)
unfolding set_option
set_option-IsInBounds online p bad h = tt
set_option-IsInBounds online p (flag c) h = ground arith
set_option-IsInBounds online p (value c arg) h = ground (
  arith,
  set_mode-IsInBounds online p arg h,
  set_walk-IsInBounds online p arg h,
  set_size-IsInBounds online p (atoi arg) h,
  set_batch-IsInBounds online p (atoi arg) h,
  set_ncpus-IsInBounds online p (atoi arg) h,
)

-- A configuration that bench-nvme accepts, whatever its arguments: the size is not negative, the batch
-- is from 0 to 258, so that the arrays of a thread hold it, and there is at least one cpu and, if there
-- is more than one, no more than the process may use.
pub parse_args-IsInBounds :
    (online : ℤ) (args : List Text) (p : Config)
    → parse_args online args ≡ some p
    → IsInBounds online p
unfolding parse_args
parse_args-IsInBounds online args p e =
    each_lem (IsInBounds online) (set_option online) (set_option-IsInBounds online) initial p
      (getopt option_string args) (initial-IsInBounds online) e
