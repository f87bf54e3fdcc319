-- ===== src/Bench/Thread/Counts.antt =====
-- userland-driver/tools/bench-nvme.c, `bench_start`: where its i/os go, and what its counters say.
use nvpkt.Base.{
  ℕ, zero, suc, ◌+◌, ◌*◌, ◌<◌, ◌≡◌, refl, subst, true, false, List, [], ◌∷◌, ◌++◌, u64, length,
  length-append, is_zero_ℤ, if◌then◌else◌, ℤ, Bool-cases, inl, inr, arith,
}
use nvpkt.Bench.Walk.{device_end, blocks_of}
use nvpkt.Bench.Walk.Range.{Fits, next_lba-Fits}
use nvpkt.Bench.Thread.{
  BenchParam, Outside, Io, Thread, allocated, polled, submitted, advance, alloc_bufs, submit, poll,
  rounds, bench_start,
}

-- each i/o has the blocks of the size and lies within the device
abbrev pub AllFit : ℕ → List Io → Type 0
AllFit n [] = Unit
AllFit n (io ∷ ios) = (io.nblocks ≡ n) × Fits io.lba device_end n × AllFit n ios

AllFit-append : (n : ℕ) (xs ys : List Io) → AllFit n xs → AllFit n ys → AllFit n (xs ++ ys)
AllFit-append n [] ys h k = k
AllFit-append n (x ∷ xs) ys h k = (h.0, h.1, AllFit-append n xs ys h.2 k)

-- How many i/os of a batch, from number `b` on, were polled in time; and of all the rounds.
abbrev pub hits : (ℕ → ℕ → ℤ) → (round left b : ℕ) → ℕ
hits apoll round zero b = 0
hits apoll round (suc left) b =
    (if is_zero_ℤ (apoll round b) then 1 else 0) + hits apoll round left (b + 1)

abbrev pub all_hits : (ℕ → ℕ → ℤ) → (batch left round : ℕ) → ℕ
all_hits apoll batch zero round = 0
all_hits apoll batch (suc left) round =
    hits apoll round batch 0 + all_hits apoll batch left (round + 1)

module _ (p : BenchParam) (o : Outside) (qid : ℕ) (room : blocks_of p.size < device_end) where
  -- A thread that has submitted `n` i/os and has counted `c`.
  record Ran (n c : ℕ) (th : Thread) : Type 0 where
    next_fits : Fits th.lba device_end (blocks_of p.size)
    all_fit : AllFit (blocks_of p.size) th.ios
    submitted : length th.ios ≡ n
    counted : th.count ≡ u64 c
    measured : th.bytes ≡ u64 (c * p.size)

  advance-Ran : {n c : ℕ} {th : Thread} → Ran n c th → Ran n c (advance p o qid th)
  advance-Ran {n} {c} {th} r = record {
    next_fits =
        next_lba-Fits p.walk (o.rand th.calls) th.lba device_end (blocks_of p.size) (omega arith)
          room r.next_fits;
    all_fit = r.all_fit;
    submitted = r.submitted;
    counted = r.counted;
    measured = r.measured;
  }

  submit-Ran :
      (left b n c : ℕ) (th : Thread) → Ran n c th → Ran (left + n) c (submit p o qid left b th)
  unfolding submit
  submit-Ran zero b n c th r = let e : n ≡ 0 + n = omega arith in subst (λ m. Ran m c th) e r
  submit-Ran (suc left) b n c th r =
      let io : Io = record {
        write = p.write;
        qid = qid;
        lba = th.lba;
        nblocks = blocks_of p.size;
      } in
      let th' : Thread = record th { ios = th.ios ++ (io ∷ []); log = submitted b ∷ th.log } in
      let r' : Ran (n + 1) c th' = record {
        next_fits = r.next_fits;
        all_fit =
            AllFit-append (blocks_of p.size) th.ios (io ∷ []) r.all_fit (refl, r.next_fits, tt);
        submitted = omega (arith, r.submitted, length-append th.ios (io ∷ []));
        counted = r.counted;
        measured = r.measured;
      } in
      let e : left + (n + 1) ≡ suc left + n = omega arith in
      subst (λ m. Ran m c (submit p o qid (suc left) b th)) e
        (submit-Ran left (b + 1) (n + 1) c (advance p o qid th') (advance-Ran r'))

  poll-Ran :
      (round left b n c : ℕ) (th : Thread)
      → Ran n c th
      → Ran n (hits o.apoll round left b + c) (poll p o qid round left b th)
  unfolding poll
  poll-Ran round zero b n c th r = let e : c ≡ 0 + c = omega arith in subst (λ m. Ran n m th) e r
  poll-Ran round (suc left) b n c th r = elim (Bool-cases (is_zero_ℤ (o.apoll round b))) [
    | inl hit ↦
        let th' : Thread = record th {
          log = polled b true ∷ th.log;
          bytes = u64 (th.bytes + p.size);
          count = u64 (th.count + 1);
        } in
        let r' : Ran n (c + 1) th' = record {
          next_fits = r.next_fits;
          all_fit = r.all_fit;
          submitted = r.submitted;
          counted = omega (arith, r.counted);
          measured = omega (arith, r.measured);
        } in
        let e : hits o.apoll round left (b + 1) + (c + 1)
            ≡ 1 + hits o.apoll round left (b + 1) + c =
          omega arith in
        rw hit (
          subst (λ m. Ran n m (poll p o qid round left (b + 1) th')) e
            (poll-Ran round left (b + 1) n (c + 1) th' r'))
    | inr late ↦
        let e : hits o.apoll round left (b + 1) + c ≡ 0 + hits o.apoll round left (b + 1) + c =
          omega arith in
        let th' : Thread = record th { log = polled b false ∷ th.log } in
        let r' : Ran n c th' = record {
          next_fits = r.next_fits;
          all_fit = r.all_fit;
          submitted = r.submitted;
          counted = r.counted;
          measured = r.measured;
        } in
        rw late (
          subst (λ m. Ran n m (poll p o qid round left (b + 1) th')) e
            (poll-Ran round left (b + 1) n c th' r'))
  ]

  rounds-Ran :
      (left round n c : ℕ) (th : Thread)
      → Ran n c th
      → Ran
          (left * p.batch + n)
          (all_hits o.apoll p.batch left round + c)
          (rounds p o qid left round th)
  unfolding rounds
  rounds-Ran zero round n c th r =
      let e : n ≡ 0 * p.batch + n = omega arith in
      let d : c ≡ 0 + c = omega arith in
      subst (λ m. Ran m (0 + c) th) e (subst (λ m. Ran n m th) d r)
  rounds-Ran (suc left) round n c th r =
      let h = hits o.apoll round p.batch 0 in
      let rest = all_hits o.apoll p.batch left (round + 1) in
      let th' = poll p o qid round p.batch 0 (submit p o qid p.batch 0 th) in
      let step =
        poll-Ran round p.batch 0 (p.batch + n) c (submit p o qid p.batch 0 th)
          (submit-Ran p.batch 0 n c th r) in
      let e : left * p.batch + (p.batch + n) ≡ suc left * p.batch + n = omega arith in
      let d : rest + (h + c) ≡ h + rest + c = omega arith in
      subst (λ m. Ran m (h + rest + c) (rounds p o qid left (round + 1) th')) e
        (subst (λ m. Ran (left * p.batch + (p.batch + n)) m (rounds p o qid left (round + 1) th')) d
          (rounds-Ran left (round + 1) (p.batch + n) (h + c) th' step))

  start_Ran :
      (slba : ℕ)
      → Fits slba device_end (blocks_of p.size)
      → Ran 0 0 (record { lba = slba; calls = 0; count = 0; bytes = 0; ios = []; log = [] })
  start_Ran slba fits = record {
    next_fits = fits;
    all_fit = tt;
    submitted = refl;
    counted = refl;
    measured = omega arith;
  }

  alloc_bufs-Ran : (left n c : ℕ) (th : Thread) → Ran n c th → Ran n c (alloc_bufs p o qid left th)
  unfolding alloc_bufs
  alloc_bufs-Ran zero n c th r = r
  alloc_bufs-Ran (suc left) n c th r =
      alloc_bufs-Ran left n c (record th { log = allocated ∷ th.log })
        (record {
          next_fits = r.next_fits;
          all_fit = r.all_fit;
          submitted = r.submitted;
          counted = r.counted;
          measured = r.measured;
        })

  -- A thread that starts with room for an i/o of its size submits a whole batch in each round until
  -- the signal, each i/o within the device; its counters are, as machine words, the i/os polled in
  -- time and their bytes, whatever the walk, the random numbers and the polls.
  pub bench_start_lem :
      (slba total : ℕ)
      → Fits slba device_end (blocks_of p.size)
      → let th = bench_start p o qid slba total in
        let c = all_hits o.apoll p.batch total 0 in
        AllFit (blocks_of p.size) th.ios
        × (length th.ios ≡ total * p.batch)
        × (th.count ≡ u64 c)
        × (th.bytes ≡ u64 (c * p.size))
  unfolding bench_start
  bench_start_lem slba total fits =
      let r =
        rounds-Ran total 0 0 0 _
          (advance-Ran (alloc_bufs-Ran p.batch 0 0 _ (start_Ran slba fits))) in
      (r.all_fit, omega (arith, r.submitted), omega (arith, r.counted), omega (arith, r.measured))
