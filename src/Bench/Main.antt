-- ===== src/Bench/Main.antt =====
-- userland-driver/tools/bench-nvme.c, `main`: the threads that are started, and their end.
pub mod Fits
pub mod Overrun
use nvpkt.Base.{
  ℕ, zero, suc, ◌+◌, Option, none, some, List, [], ◌∷◌, ltb, if◌then◌else◌, ℤ, pos_part,
}
use nvpkt.Args.{Text}
use nvpkt.Bench.Walk.{start_lba}
use nvpkt.Bench.Thread.{Outside, Thread, bench_start}
use nvpkt.Bench.Args.{Config, max_cpu_num, parse_args, param}

-- What stands outside: the cpus that the process may use, and for each thread the answers that it gets
-- and how many rounds it makes before it sees the signal.
pub record Machine : Type 0 where
  pub online : ℤ
  pub outside : ℕ → Outside
  pub passes : ℕ → ℕ

-- How the program ends: with -1 for its arguments or for want of a device, with 0 and the threads that
-- have run, or by writing behind the array of threads.
pub data End : Type 0 where
  invalid no_device overrun : End
  finished : List Thread → End

module _ (m : Machine) where
  -- thread `n`
  unfoldable pub start : Config → ℕ → Thread
  start p n = bench_start (param p) (m.outside n) n (start_lba (pos_part p.ncpus) n) (m.passes n)

  -- the threads from `n` on, with their number left
  unfoldable pub threads : Config → (left n : ℕ) → List Thread
  threads p zero n = []
  threads p (suc left) n = start p n ∷ threads p left (n + 1)

  unfoldable pub run_threads : Config → End
  run_threads p =
      if ltb max_cpu_num (pos_part p.ncpus)
      then overrun
      else finished (threads p (pos_part p.ncpus) 0)

  -- with the device that `-p` names, and with the arguments as they were read
  unfoldable pub run_named : Config → Option Text → End
  run_named p none = no_device
  run_named p (some pci) = run_threads p

  unfoldable pub run : Option Config → End
  run none = invalid
  run (some p) = run_named p p.pci

  unfoldable pub main : List Text → End
  main args = run (parse_args m.online args)
