-- ===== src/Bench/Args/Print.antt =====
-- userland-driver/tools/bench-nvme.c: a configuration as a command line, and back.
use nvpkt.Base.{ℕ, ◌<◌, ◌^◌, ◌≤◌, ◌≡◌, refl, Bool, true, false, some, List, [], ◌∷◌, pos, arith}
use nvpkt.Args.{Text, codes, Opt, value, getopt, each}
use nvpkt.Args.Print.{decimal, atoi-decimal}
use nvpkt.Args.Line.{dash}
use nvpkt.Bench.Walk.{Walk, random, seq, same}
use nvpkt.Bench.Args.{
  Config, initial, set_mode, set_walk, set_size, set_batch, set_ncpus, set_option, parse_args,
  option_string,
}

abbrev pub mode_text : Bool → Text
mode_text false = codes "read"
mode_text true = codes "write"

abbrev pub walk_text : Walk → Text
walk_text random = codes "random"
walk_text seq = codes "seq"
walk_text same = codes "same"

-- All options, each with its argument behind it.
abbrev pub command_line :
    (write : Bool) (walk : Walk) (size batch ncpus time : ℕ) (pci : Text) → List Text
command_line write walk size batch ncpus time pci =
    dash b'm'
    ∷ mode_text write
    ∷ dash b'w'
    ∷ walk_text walk
    ∷ dash b's'
    ∷ decimal size
    ∷ dash b'b'
    ∷ decimal batch
    ∷ dash b'n'
    ∷ decimal ncpus
    ∷ dash b't'
    ∷ decimal time
    ∷ dash b'p'
    ∷ pci
    ∷ []

abbrev options : (write : Bool) (walk : Walk) (size batch ncpus time : ℕ) (pci : Text) → List Opt
options write walk size batch ncpus time pci =
    value b'm' (mode_text write)
    ∷ value b'w' (walk_text walk)
    ∷ value b's' (decimal size)
    ∷ value b'b' (decimal batch)
    ∷ value b'n' (decimal ncpus)
    ∷ value b't' (decimal time)
    ∷ value b'p' pci
    ∷ []

getopt-command_line :
    (write : Bool) (walk : Walk) (size batch ncpus time : ℕ) (pci : Text)
    → getopt option_string (command_line write walk size batch ncpus time pci)
      ≡ options write walk size batch ncpus time pci
unfolding getopt
getopt-command_line write walk size batch ncpus time pci = refl

set_mode-text :
    (p : Config) (write : Bool) → set_mode p (mode_text write) ≡ some (record p { write = write })
unfolding set_mode
set_mode-text p false = refl
set_mode-text p true = refl

set_walk-text :
    (p : Config) (walk : Walk) → set_walk p (walk_text walk) ≡ some (record p { walk = walk })
unfolding set_walk
set_walk-text p random = refl
set_walk-text p seq = refl
set_walk-text p same = refl

set_size-pos : (p : Config) (n : ℕ) → set_size p (pos n) ≡ some (record p { size = pos n })
unfolding set_size
set_size-pos p n = ground arith

set_batch-pos :
    (p : Config) (n : ℕ) → n ≤ 258 → set_batch p (pos n) ≡ some (record p { batch = pos n })
unfolding set_batch
set_batch-pos p n h = ground arith

set_ncpus-pos :
    (online : ℕ) (p : Config) (n : ℕ)
    → 1 ≤ n
    → n ≤ online
    → set_ncpus (pos online) p (pos n) ≡ some (record p { ncpus = pos n })
unfolding set_ncpus
set_ncpus-pos online p n one few = ground arith

-- Every configuration within the bounds of bench-nvme, with numbers that an `int` holds, can be asked
-- for: its command line is read back as it.
pub parse_args-command_line :
    (online : ℕ) (write : Bool) (walk : Walk) (size batch ncpus time : ℕ) (pci : Text)
    → size < 2 ^ 31
    → batch ≤ 258
    → 1 ≤ ncpus
    → ncpus ≤ online
    → ncpus < 2 ^ 31
    → time < 2 ^ 31
    → parse_args (pos online) (command_line write walk size batch ncpus time pci)
      ≡ some (record {
        write = write;
        walk = walk;
        size = pos size;
        batch = pos batch;
        ncpus = pos ncpus;
        time = pos time;
        pci = some pci;
        verbose_level = 0;
      })
unfolding parse_args set_option
parse_args-command_line online write walk size batch ncpus time pci hs hb h1 hn h31 ht =
    let p₁ : Config = record initial { write = write } in
    let p₂ : Config = record p₁ { walk = walk } in
    let p₃ : Config = record p₂ { size = pos size } in
    let p₄ : Config = record p₃ { batch = pos batch } in
    rw (getopt-command_line write walk size batch ncpus time pci) (
      rw
        (
          each,
          set_mode-text initial write,
          set_walk-text p₁ walk,
          atoi-decimal size hs,
          set_size-pos p₂ size,
          atoi-decimal batch (omega arith),
          set_batch-pos p₃ batch hb,
          atoi-decimal ncpus h31,
          set_ncpus-pos online p₄ ncpus h1 hn,
          atoi-decimal time ht,
        )
        refl)
