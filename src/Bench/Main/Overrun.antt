-- ===== src/Bench/Main/Overrun.antt =====
-- userland-driver/tools/bench-nvme.c: when the array of threads, which has MAX_CPU_NUM elements, is
-- overrun.
use nvpkt.Base.{
  ℕ, ◌<◌, ◌≤◌, ◌^◌, ◌≡◌, refl, ap, ◌∙◌, Option, none, some, Bool, List, ℤ, pos, negsuc, pos_part,
  inl, inr, lt→ltb, le→ltb, ◌≤ℤ◌, arith,
}
use nvpkt.Args.{Text}
use nvpkt.Bench.Walk.{Walk}
use nvpkt.Bench.Args.{Config, max_cpu_num, parse_args}
use nvpkt.Bench.Args.Bounds.{IsInBounds, parse_args-IsInBounds}
use nvpkt.Bench.Args.Print.{command_line, parse_args-command_line}
use nvpkt.Bench.Main.{
  Machine, End, invalid, no_device, overrun, finished, run_threads, run_named, run, main,
}

abbrev pub NotOverrun : End → Type 0
NotOverrun invalid = Unit
NotOverrun no_device = Unit
NotOverrun (finished ths) = Unit
NotOverrun overrun = ⊥

le_online : (ncpus online : ℤ) → ncpus ≤ℤ online → online ≤ℤ pos 32 → pos_part ncpus ≤ 32
le_online (pos n) online h few = omega (arith, h, few)
le_online (negsuc n) online h few = omega arith

few_cpus :
    (online : ℤ) (p : Config) → IsInBounds online p → online ≤ℤ pos 32 → pos_part p.ncpus ≤ 32
few_cpus online p h few = elim (h.ncpus) [
  | inl one ↦ rw one (omega arith)
  | inr le ↦ le_online p.ncpus online le few
]

module _ (m : Machine) where
  -- On a machine that gives the process at most 32 cpus, no arguments overrun the array of threads.
  pub main-NotOverrun : (args : List Text) → m.online ≤ℤ pos 32 → NotOverrun (main m args)
  unfolding main run run_named run_threads
  main-NotOverrun args few = go (parse_args m.online args) refl
    where
      named :
          (p : Config) (pci : Option Text) → pos_part p.ncpus ≤ 32 → NotOverrun (run_named m p pci)
      named p none h = tt
      named p (some pci) h = rw (NotOverrun, le→ltb max_cpu_num (pos_part p.ncpus) h) tt

      go : (r : Option Config) → parse_args m.online args ≡ r → NotOverrun (run m r)
      go none e = tt
      go (some p) e =
          named p p.pci (few_cpus m.online p (parse_args-IsInBounds m.online args p e) few)

  -- On a machine that gives the process more than 32 cpus, each number of cpus from 33 to that many
  -- is accepted, as long as an `int` holds it, and overruns the array of threads, whatever the
  -- other options are, as long as they are within the bounds of bench-nvme and an `int` holds them.
  pub main-overrun :
      (online : ℕ) (write : Bool) (walk : Walk) (size batch ncpus time : ℕ) (pci : Text)
      → m.online ≡ pos online
      → size < 2 ^ 31
      → batch ≤ 258
      → 32 < ncpus
      → ncpus ≤ online
      → ncpus < 2 ^ 31
      → time < 2 ^ 31
      → main m (command_line write walk size batch ncpus time pci) ≡ overrun
  unfolding main run run_named run_threads
  main-overrun online write walk size batch ncpus time pci e hs hb many hn h31 ht =
      ap (λ o. run m (parse_args o (command_line write walk size batch ncpus time pci))) e
      ∙ ap (run m) (
          parse_args-command_line online write walk size batch ncpus time pci hs hb (omega arith) hn
            h31 ht)
      ∙ rw (lt→ltb max_cpu_num ncpus many) refl
