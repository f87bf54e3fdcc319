-- ===== src/Bench/Main/Fits.antt =====
-- userland-driver/tools/bench-nvme.c: whatever the arguments, all threads stay within the device.
use nvpkt.Base.{
  ℕ, zero, suc, ◌+◌, ◌*◌, ◌^◌, ◌<◌, ◌≤◌, ◌≡◌, refl, ap, ◌∙◌, some, List, [], ◌∷◌, length, u64,
  pos_part, le→ltb, arith,
}
use nvpkt.Args.{Text}
use nvpkt.Bench.Walk.{start_lba, blocks_of}
use nvpkt.Bench.Walk.Range.{start_lba-Fits, blocks_of_bounds}
use nvpkt.Bench.Thread.{Thread}
use nvpkt.Bench.Thread.Counts.{AllFit, all_hits, bench_start_lem}
use nvpkt.Bench.Args.{Config, max_cpu_num, parse_args, param}
use nvpkt.Bench.Main.{Machine, finished, start, threads, run_threads, run_named, run, main}

module _ (m : Machine) where
  -- What a thread has done: `batch` i/os in each round, all within the device, and its count is that of
  -- the i/os polled in time.
  pub record Did (p : Config) (n : ℕ) (th : Thread) : Type 0 where
    pub fit : AllFit (blocks_of (pos_part p.size)) th.ios
    pub submitted : length th.ios ≡ m.passes n * pos_part p.batch
    pub counted : th.count ≡ u64 (all_hits (m.outside n).apoll (pos_part p.batch) (m.passes n) 0)

  start-Did :
      (p : Config) (n : ℕ)
      → n < pos_part p.ncpus
      → pos_part p.ncpus ≤ 32
      → pos_part p.size ≤ 2 ^ 30
      → Did p n (start m p n)
  unfolding start
  start-Did p n below few small =
      let size = pos_part p.size in
      let fits = start_lba-Fits (pos_part p.ncpus) n size below few small in
      let (fit, submitted, counted, _) =
        bench_start_lem (param p) (m.outside n) n (omega (arith, blocks_of_bounds size))
          (start_lba (pos_part p.ncpus) n) (m.passes n) fits in
      record { fit = fit; submitted = submitted; counted = counted }

  -- the same of threads `n`, `n + 1`, …
  abbrev pub AllDid : Config → ℕ → List Thread → Type 0
  AllDid p n [] = Unit
  AllDid p n (th ∷ ths) = Did p n th × AllDid p (n + 1) ths

  pub threads-AllDid :
      (p : Config) (left n : ℕ)
      → left + n ≤ pos_part p.ncpus
      → pos_part p.ncpus ≤ 32
      → pos_part p.size ≤ 2 ^ 30
      → AllDid p n (threads m p left n)
  unfolding threads
  threads-AllDid p zero n inside few small = tt
  threads-AllDid p (suc left) n inside few small =
      (start-Did p n (omega arith) few small, threads-AllDid p left (n + 1) (omega arith) few small)

  pub length-threads : (p : Config) (left n : ℕ) → length (threads m p left n) ≡ left
  unfolding threads
  length-threads p zero n = refl
  length-threads p (suc left) n = ap suc (length-threads p left (n + 1))

  -- Whatever the arguments of bench-nvme: if it accepts them, a device is named, and the size is at most
  -- 2^30 bytes and the cpus at most 32, as many threads run as cpus are asked for, and thread `n`
  -- submits a batch in each round, each i/o within the device, and counts those polled in time.
  main-AllDid :
      (args : List Text) (p : Config) (pci : Text)
      → parse_args m.online args ≡ some p
      → p.pci ≡ some pci
      → pos_part p.ncpus ≤ 32
      → pos_part p.size ≤ 2 ^ 30
      → (ths : List Thread) × (main m args ≡ finished ths)
        × (length ths ≡ pos_part p.ncpus)
        × AllDid p 0 ths
  unfolding main run run_named run_threads
  main-AllDid args p pci accepted named few small = (
    threads m p (pos_part p.ncpus) 0,
    ap (run m) accepted
        ∙ ap (run_named m p) named
        ∙ rw (le→ltb max_cpu_num (pos_part p.ncpus) few) refl,
    length-threads p (pos_part p.ncpus) 0,
    threads-AllDid p (pos_part p.ncpus) 0 (omega arith) few small,
  )
