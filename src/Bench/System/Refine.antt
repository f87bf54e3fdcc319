-- ===== src/Bench/System/Refine.antt =====
-- userland-driver/tools/bench-nvme.c: the program with its threads in steps does what Bench/Main says of
-- it, where each thread runs by itself.
use nvpkt.Base.{
  ℕ, zero, suc, ◌+◌, ◌≤◌, ◌<◌, ◌≡◌, refl, ap, sym, ◌∙◌, subst, some, List, length, ◌^◌, pos_part,
  le→ltb, arith,
}
use nvpkt.Args.{Text}
use nvpkt.Bench.Thread.{bench_start}
use nvpkt.Bench.Args.{Config, max_cpu_num, parse_args}
use nvpkt.Bench.Main.Fits.{AllDid, threads-AllDid, length-threads}
use nvpkt.Bench.Main.{Machine, finished, start, threads, run_threads, run_named, run, main}
use nvpkt.Bench.System.{Worker, exited, closed, System, Reach, results}
use nvpkt.Bench.System.Rounds.{At}
use nvpkt.Bench.System.Inv.{goods}
use nvpkt.Bench.System.Inv.Steps.{Reach-Inv}

-- the machine on which each thread makes the rounds that it has made
abbrev pub as_seen : Machine → (ℕ → Worker) → Machine
as_seen m ws = record m { passes = λ n. (ws n).round }

module _ (m : Machine) (p : Config) where
  exited-start :
      (ws : ℕ → Worker) (n : ℕ)
      → (ws n).pc ≡ exited
      → At m p n (ws n).pc (ws n).round (ws n).thread
      → start (as_seen m ws) p n ≡ (ws n).thread
  unfolding start bench_start
  exited-start ws n e a = sym (subst (λ pc. At m p n pc (ws n).round (ws n).thread) e a)

  threads-results :
      (ws : ℕ → Worker) (left n : ℕ)
      → ((i : ℕ) → i < n + left → start (as_seen m ws) p i ≡ (ws i).thread)
      → threads (as_seen m ws) p left n ≡ results left n ws
  unfolding threads results
  threads-results ws zero n same = refl
  threads-results ws (suc left) n same =
      rw (same n (omega arith), threads-results ws left (n + 1) (λ i h. same i (omega (arith, h))))

  closed-threads :
      {s : System}
      → Reach m p s
      → s.main ≡ closed
      → threads (as_seen m s.workers) p (pos_part p.ncpus) 0
        ≡ results (pos_part p.ncpus) 0 s.workers
  closed-threads {s} r e =
      let v = Reach-Inv m p r in
      threads-results s.workers (pos_part p.ncpus) 0 (λ i h.
        let g = goods m p v e i in exited-start s.workers i (g.joined (omega (arith, h))) g.placed)

  -- For arguments that are accepted, with a device named and at most 32 cpus, and whatever the
  -- order in which main, the threads and the reporter of bench-nvme make their steps: when the
  -- device is closed, the results that are printed are those of the program in which each thread
  -- runs by itself, for the rounds that it has made.
  pub closed-main :
      (args : List Text) {pci : Text} {s : System}
      → parse_args m.online args ≡ some p
      → p.pci ≡ some pci
      → pos_part p.ncpus ≤ 32
      → Reach m p s
      → s.main ≡ closed
      → main (as_seen m s.workers) args ≡ finished (results (pos_part p.ncpus) 0 s.workers)
  unfolding main run run_named run_threads
  closed-main args {pci} {s} parsed named few r e =
      let same = closed-threads r e in
      ap (run (as_seen m s.workers)) parsed
      ∙ ap (run_named (as_seen m s.workers) p) named
      ∙ rw (le→ltb max_cpu_num (pos_part p.ncpus) few) (ap finished same)

  -- Whatever the order in which main, the threads and the reporter of bench-nvme make their steps,
  -- with at most 32 cpus and a size of at most 2^30 bytes: when the device is closed, there are as
  -- many results as cpus, and thread `n` has submitted a batch in each of its rounds, each i/o
  -- within the device, and counted those polled in time.
  pub closed-AllDid :
      {s : System}
      → pos_part p.ncpus ≤ 32
      → pos_part p.size ≤ 2 ^ 30
      → Reach m p s
      → s.main ≡ closed
      → (length (results (pos_part p.ncpus) 0 s.workers) ≡ pos_part p.ncpus)
        × AllDid (as_seen m s.workers) p 0 (results (pos_part p.ncpus) 0 s.workers)
  closed-AllDid {s} few small r e =
      let same = closed-threads r e in
      (
        ap length (sym same) ∙ length-threads (as_seen m s.workers) p (pos_part p.ncpus) 0,
        subst (AllDid (as_seen m s.workers) p 0) same
            (threads-AllDid (as_seen m s.workers) p (pos_part p.ncpus) 0 (omega arith) few small),
      )
