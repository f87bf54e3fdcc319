-- ===== src/Bench/Thread/Buffers.antt =====
-- userland-driver/tools/bench-nvme.c, `bench_start`: the buffers of a thread. The device has at most
-- one i/o on a buffer, and the i/os of a batch are done before the next one.
pub mod Late
use mathlib.Core.Path.{fun_ext}
use nvpkt.Base.{
  ℕ, zero, suc, ◌+◌, ◌<◌, ◌≤◌, ◌≡◌, refl, sym, ap, ◌∙◌, subst, Option, none, some, Bool, true,
  false, not, Bool-cases, inl, inr, [], ◌∷◌, ◌++◌, ltb, leb, ◌==◌, ◌&&◌, if◌then◌else◌, is_zero_ℤ,
  arith,
}
use nvpkt.Bench.Thread.{
  BenchParam, Outside, Io, Thread, Event, allocated, submitted, polled, Log, advance, alloc_bufs,
  submit, poll, rounds, bench_start,
}

-- How many buffers there are, and on which of them the device has an i/o.
pub record Buffers : Type 0 where
  pub count : ℕ
  pub busy : ℕ → Bool

abbrev pub with_busy : Buffers → ℕ → Bool → Buffers
with_busy s b now = record s { busy = λ i. if i == b then now else s.busy i }

-- A buffer that is handed to the device is there and not busy; one that is polled is busy, and stays
-- so if its i/o is not done.
abbrev pub enter : Event → Buffers → Option Buffers
enter allocated s = some (record s { count = s.count + 1 })
enter (submitted b) s = if ltb b s.count && not (s.busy b) then some (with_busy s b true) else none
enter (polled b done) s = if s.busy b then some (with_busy s b (not done)) else none

unfoldable pub buffers : Log → Option Buffers
buffers [] = some (record { count = 0; busy = λ i. false })
buffers (e ∷ l) = elim (buffers l) [ none ↦ none | some s ↦ enter e s ]

-- the buffers from `from` below `end` are busy
abbrev pub busy_from : (count from end : ℕ) → Buffers
busy_from count from end = record { count = count; busy = λ i. leb from i && ltb i end }

-- no buffer is busy
abbrev pub idle : ℕ → Buffers
idle count = record { count = count; busy = λ i. false }

same_busy :
    (count : ℕ) (f g : ℕ → Bool)
    → ((i : ℕ) → f i ≡ g i)
    → ◌≡◌ {A = Option Buffers}
        (some (record { count = count; busy = f }))
        (some (record { count = count; busy = g }))
same_busy count f g e = ap (λ h. some (record { count = count; busy = h })) (fun_ext e)

module _ (p : BenchParam) (o : Outside) (qid : ℕ) where
  alloc_bufs-idle :
      (left n : ℕ) (th : Thread)
      → buffers (th.log) ≡ some (idle n)
      → buffers ((alloc_bufs p o qid left th).log) ≡ some (idle (n + left))
  unfolding alloc_bufs buffers
  alloc_bufs-idle zero n th h = h ∙ ap (λ m. some (idle m)) (omega arith)
  alloc_bufs-idle (suc left) n th h =
      alloc_bufs-idle left (n + 1) (record th { log = allocated ∷ th.log }) (rw h refl)
      ∙ ap (λ m. some (idle m)) (omega arith)

  abbrev pub fresh : ℕ → Thread
  fresh slba = record { lba = slba; calls = 0; count = 0; bytes = 0; ios = []; log = [] }

  pub started :
      (slba : ℕ) → buffers ((alloc_bufs p o qid p.batch (fresh slba)).log) ≡ some (idle p.batch)
  unfolding buffers
  started slba = alloc_bufs-idle p.batch 0 (fresh slba) refl ∙ ap (λ m. some (idle m)) (omega arith)

  pub idle-busy_from : ◌≡◌ {A = Option Buffers} (some (idle p.batch)) (some (busy_from p.batch 0 0))
  idle-busy_from = same_busy p.batch _ _ (λ i. ground arith)

  pub submit-busy :
      (left b : ℕ) (th : Thread)
      → b + left ≡ p.batch
      → buffers (th.log) ≡ some (busy_from p.batch 0 b)
      → buffers ((submit p o qid left b th).log) ≡ some (busy_from p.batch 0 p.batch)
  unfolding submit buffers
  submit-busy zero b th e h = h ∙ ap (λ m. some (busy_from p.batch 0 m)) (omega arith)
  submit-busy (suc left) b th e h =
      let free : (ltb b p.batch && not (leb 0 b && ltb b b)) ≡ true = ground arith in
      submit-busy left (b + 1) _ (omega arith)
        (rw (h, free) (same_busy p.batch _ _ (λ i. ground arith)))

  poll-busy :
      (round left b : ℕ) (th : Thread)
      → b + left ≡ p.batch
      → ((round b : ℕ) → is_zero_ℤ (o.apoll round b) ≡ true)
      → buffers (th.log) ≡ some (busy_from p.batch b p.batch)
      → buffers ((poll p o qid round left b th).log) ≡ some (idle p.batch)
  unfolding poll buffers
  poll-busy round zero b th e in_time h = h ∙ same_busy p.batch _ _ (λ i. ground arith)
  poll-busy round (suc left) b th e in_time h =
      let busy : (leb b b && ltb b p.batch) ≡ true = ground arith in
      rw (poll, in_time round b)
        (poll-busy round left (b + 1) _ (omega arith) in_time
          (rw (h, busy) (same_busy p.batch _ _ (λ i. ground arith))))

  rounds-idle :
      (left round : ℕ) (th : Thread)
      → ((round b : ℕ) → is_zero_ℤ (o.apoll round b) ≡ true)
      → buffers (th.log) ≡ some (idle p.batch)
      → buffers ((rounds p o qid left round th).log) ≡ some (idle p.batch)
  unfolding rounds
  rounds-idle zero round th in_time h = h
  rounds-idle (suc left) round th in_time h = rounds-idle left (round + 1) _ in_time (
      poll-busy round p.batch 0 _ (omega arith) in_time
        (submit-busy p.batch 0 th (omega arith) (h ∙ idle-busy_from)))

  -- If every i/o is done when it is polled, then, in every number of rounds: each buffer that a thread
  -- hands to the device was allocated and has no i/o that is still under way, only such an i/o is
  -- polled, and none is under way at the end of a round; and as many buffers as a batch has are
  -- allocated.
  pub bench_start-idle :
      (slba total : ℕ)
      → ((round b : ℕ) → is_zero_ℤ (o.apoll round b) ≡ true)
      → buffers ((bench_start p o qid slba total).log) ≡ some (idle p.batch)
  unfolding bench_start buffers
  bench_start-idle slba total in_time = rounds-idle total 0 _ in_time (started slba)
