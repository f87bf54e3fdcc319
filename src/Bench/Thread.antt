-- ===== src/Bench/Thread.antt =====
-- userland-driver/tools/bench-nvme.c, `bench` and `bench_start`: what one thread submits and counts
-- until the signal is caught.
pub mod Counts
pub mod Buffers
use nvpkt.Base.{ℕ, zero, suc, ◌+◌, Bool, List, [], ◌∷◌, ◌++◌, u64, is_zero_ℤ, if◌then◌else◌, ℤ}
use nvpkt.Bench.Walk.{Walk, random, seq, same, next_lba, device_end, blocks_of}

-- `struct bench_param`, the fields that a thread reads
pub record BenchParam : Type 0 where
  pub write : Bool  -- mode
  pub walk : Walk
  pub size : ℕ
  pub batch : ℕ

-- What stands outside the program: the numbers that `rand` returns, one after the other, and the
-- status of `unvme_apoll` in each round of the loop, for each i/o of the batch.
pub record Outside : Type 0 where
  pub rand : ℕ → ℕ
  pub apoll : ℕ → ℕ → ℤ

-- A call of `unvme_aread` or `unvme_awrite` by `bench`.
pub record Io : Type 0 where
  pub write : Bool
  pub qid : ℕ
  pub lba : ℕ
  pub nblocks : ℕ

-- What happens to the buffers of a thread: the next one is allocated, number `b` is handed to the
-- device, and its i/o is polled, and is done in time or not.
pub data Event : Type 0 where
  allocated : Event
  submitted : (b : ℕ) → Event
  polled : (b : ℕ) (done : Bool) → Event

-- newest first
abbrev pub Log : Type 0
Log = List Event

-- `struct bench_thread` with the variables of `bench_start`: the next block, the calls of `rand` so
-- far, the counters, all that was submitted, oldest first, and what happened to the buffers.
pub record Thread : Type 0 where
  pub lba : ℕ
  pub calls : ℕ
  pub count : ℕ
  pub bytes : ℕ
  pub ios : List Io
  pub log : Log

-- only a random walk calls `rand`
abbrev pub drawn : Walk → ℕ → ℕ
drawn random calls = suc calls
drawn seq calls = calls
drawn same calls = calls

-- `th[n]` as `main` leaves it
abbrev pub zeroed : (slba : ℕ) → Thread
zeroed slba = record { lba = slba; calls = 0; count = 0; bytes = 0; ios = []; log = [] }

module _ (p : BenchParam) (o : Outside) (qid : ℕ) where
  abbrev pub nblocks : ℕ
  nblocks = blocks_of p.size

  -- `lba = next_lba(lba, block_end, nblocks)`
  abbrev pub advance : Thread → Thread
  advance th = record th {
    lba = next_lba p.walk (o.rand th.calls) th.lba device_end nblocks;
    calls = drawn p.walk th.calls;
  }

  -- the buffers, with those left
  unfoldable pub alloc_bufs : ℕ → Thread → Thread
  alloc_bufs zero th = th
  alloc_bufs (suc left) th = alloc_bufs left (record th { log = allocated ∷ th.log })

  -- The first inner loop hands buffer `b` to the device and goes on to the next block.
  abbrev pub submit_one : (b : ℕ) → Thread → Thread
  submit_one b th =
      let io : Io = record { write = p.write; qid = qid; lba = th.lba; nblocks = nblocks } in
      advance (record th { ios = th.ios ++ (io ∷ []); log = submitted b ∷ th.log })

  -- that loop from buffer `b` on, with its rounds left
  unfoldable pub submit : (left b : ℕ) → Thread → Thread
  submit zero b th = th
  submit (suc left) b th = submit left (b + 1) (submit_one b th)

  -- The second inner loop polls i/o `b` of the batch.
  abbrev pub poll_one : (round b : ℕ) → Thread → Thread
  poll_one round b th =
      let done = is_zero_ℤ (o.apoll round b) in
      let th' : Thread = record th { log = polled b done ∷ th.log } in
      let counted : Thread = record th' {
        bytes = u64 (th.bytes + p.size);
        count = u64 (th.count + 1);
      } in
      if done then counted else th'

  -- that loop from i/o `b` on
  unfoldable pub poll : (round left b : ℕ) → Thread → Thread
  poll round zero b th = th
  poll round (suc left) b th = poll round left (b + 1) (poll_one round b th)

  -- The outer loop: the signal is seen after `left` more rounds.
  unfoldable pub rounds : (left round : ℕ) → Thread → Thread
  rounds zero round th = th
  rounds (suc left) round th = rounds left (round + 1) (poll round p.batch 0 (submit p.batch 0 th))

  -- the code before the outer loop
  unfoldable pub begin : (slba : ℕ) → Thread
  begin slba = advance (alloc_bufs p.batch (zeroed slba))

  unfoldable pub bench_start : (slba total_rounds : ℕ) → Thread
  unfolding begin
  bench_start slba total_rounds = rounds total_rounds 0 (begin slba)
