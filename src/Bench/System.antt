-- ===== src/Bench/System.antt =====
-- userland-driver/tools/bench-nvme.c: `main`, the threads of `bench_start` and the thread of
-- `report_interval` at the same time, one step of any of them after the other, with the flag and the
-- counters that they share.
pub mod Rounds
pub mod Inv
pub mod Refine
pub mod Left
pub mod Ends
pub mod Done
pub mod Sums
pub mod Told
pub mod Busy
pub mod Printed
mod Tests
use nvpkt.Base.{
  ℕ, zero, suc, ◌+◌, ◌-◌, ◌^◌, ◌≡◌, Bool, true, false, List, [], ◌∷◌, ◌++◌, ltb, ◌==◌, u64,
  if◌then◌else◌, pos_part,
}
use nvpkt.Bench.Walk.{start_lba}
use nvpkt.Bench.Thread.{Thread, zeroed, submit_one, poll_one, begin}
use nvpkt.Bench.Args.{Config, param}
use nvpkt.Bench.Main.{Machine}

-- Where a thread of `bench_start` is: not created; created; at the test of the outer loop; in one of
-- the inner loops, with the rounds left and the number of the i/o; returned.
pub data Pc : Type 0 where
  waiting created head exited : Pc
  submitting polling : (left b : ℕ) → Pc

pub record Worker : Type 0 where
  pub pc : Pc
  -- of the outer loop
  pub round : ℕ
  pub thread : Thread

abbrev pub is_waiting : Pc → Bool
is_waiting waiting = true
is_waiting _ = false

abbrev pub is_running : Pc → Bool
is_running waiting = false
is_running exited = false
is_running _ = true

-- i/os and bytes: the counters of a thread, sums of them, and differences
pub record Totals : Type 0 where
  pub ios : ℕ
  pub bytes : ℕ

abbrev pub nothing : Totals
nothing = record { ios = 0; bytes = 0 }

-- `unsigned long` arithmetic
abbrev pub add : Totals → Totals → Totals
add a b = record { ios = u64 (a.ios + b.ios); bytes = u64 (a.bytes + b.bytes) }

abbrev pub minus : Totals → Totals → Totals
minus a b = record { ios = u64 (a.ios + 2 ^ 64 - b.ios); bytes = u64 (a.bytes + 2 ^ 64 - b.bytes) }

-- Where the thread of `report_interval` is: not created; at the test of its loop; summing up the
-- counters, from thread `n` on; in `sleep`; summing them up again; returned.
pub data ReporterPc : Type 0 where
  unborn testing gone : ReporterPc
  starting : (left n : ℕ) → (sums : Totals) → ReporterPc
  asleep : (start : Totals) → ReporterPc
  ending : (start : Totals) → (left n : ℕ) → (sums : Totals) → ReporterPc

-- with what it has printed, oldest first
pub record Reporter : Type 0 where
  pub pc : ReporterPc
  pub printed : List Totals

abbrev pub is_active : ReporterPc → Bool
is_active unborn = false
is_active gone = false
is_active _ = true

-- Where `main` is: creating threads, from `n` on; in `sleep`; waiting for thread `n`, then for the
-- reporter; behind that, where the device is closed.
pub data MainPc : Type 0 where
  creating joining : (left n : ℕ) → MainPc
  sleeping joining_reporter closed : MainPc

pub record System : Type 0 where
  pub main : MainPc
  pub caught_signal : Bool
  pub workers : ℕ → Worker
  pub reporter : Reporter

abbrev pub set_worker : (ℕ → Worker) → ℕ → Worker → ℕ → Worker
set_worker ws n w i = if i == n then w else ws i

abbrev pub idle : Worker
idle = record { pc = waiting; round = 0; thread = zeroed 0 }

-- `count` and `bytes` of the threads
abbrev pub counters_of : (ℕ → Worker) → ℕ → Totals
counters_of ws n = record { ios = (ws n).thread.count; bytes = (ws n).thread.bytes }

-- what `print_result` gets in the end: the threads from `n` on, with their number left
unfoldable pub results : (left n : ℕ) → (ℕ → Worker) → List Thread
results zero n ws = []
results (suc left) n ws = (ws n).thread ∷ results left (n + 1) ws

module _ (m : Machine) (p : Config) where
  abbrev pub ncpus : ℕ
  ncpus = pos_part p.ncpus

  abbrev pub batch : ℕ
  batch = pos_part p.batch

  -- one step of thread `n`
  unfoldable pub work : (n : ℕ) → (caught : Bool) → Worker → Worker
  work n caught w = elim w.pc [
    | waiting ↦ w
    | created ↦ record w { pc = head; thread = begin (param p) (m.outside n) n w.thread.lba }
    | head ↦ record w { pc = if caught then exited else submitting batch 0 }
    | submitting zero b ↦ record w { pc = polling batch 0 }
    | submitting (suc left) b ↦ record w {
      pc = submitting left (b + 1);
      thread = submit_one (param p) (m.outside n) n b w.thread;
    }
    | polling zero b ↦ record w { pc = head; round = w.round + 1 }
    | polling (suc left) b ↦ record w {
      pc = polling left (b + 1);
      thread = poll_one (param p) (m.outside n) n w.round b w.thread;
    }
    | exited ↦ w
  ]

  -- One step of the reporter, with what stands in `th[n].count` and `th[n].bytes` at this moment. The
  -- differences are printed.
  unfoldable pub report : (caught : Bool) → (counters : ℕ → Totals) → Reporter → Reporter
  report caught counters r = elim r.pc [
    | unborn ↦ r
    | testing ↦ record r { pc = if caught then gone else starting ncpus 0 nothing }
    | starting zero n sums ↦ record r { pc = asleep sums }
    | starting (suc left) n sums ↦ record r { pc = starting left (n + 1) (add sums (counters n)) }
    | asleep start ↦ record r { pc = ending start ncpus 0 nothing }
    | ending start zero n sums ↦ record {
      pc = testing;
      printed = r.printed ++ (minus sums start ∷ []);
    }
    | ending start (suc left) n sums ↦ record r {
      pc = ending start left (n + 1) (add sums (counters n));
    }
    | gone ↦ r
  ]

  -- a thread with `th[n].slba` set
  abbrev pub create : (n : ℕ) → Worker → Worker
  create n w = record w { pc = created; thread = zeroed (start_lba ncpus n) }

  -- behind `unvme_open`
  abbrev pub started : System
  started = record {
    main = creating ncpus 0;
    caught_signal = false;
    workers = λ _. idle;
    reporter = record { pc = unborn; printed = [] };
  }

  pub data Step (s : System) : System → Type 0 where
    -- `pthread_create` of thread `n`, and of the reporter behind them
    creates :
        (left n : ℕ)
        → s.main ≡ creating (suc left) n
        → Step s (record s {
          main = creating left (n + 1);
          workers = set_worker s.workers n (create n (s.workers n));
        })
    reports :
        (n : ℕ)
        → s.main ≡ creating zero n
        → Step s (record s { main = sleeping; reporter = record s.reporter { pc = testing } })
    -- the end of `sleep(p.time)`
    wakes : s.main ≡ sleeping → Step s (record s { main = joining ncpus 0; caught_signal = true })
    -- `pthread_join` returns when its thread has returned.
    joins :
        (left n : ℕ)
        → s.main ≡ joining (suc left) n
        → (s.workers n).pc ≡ exited
        → Step s (record s { main = joining left (n + 1) })
    all_joined : (n : ℕ) → s.main ≡ joining zero n → Step s (record s { main = joining_reporter })
    closes : s.main ≡ joining_reporter → s.reporter.pc ≡ gone → Step s (record s { main = closed })
    works :
        (n : ℕ)
        → is_running (s.workers n).pc ≡ true
        → Step s
            (record s { workers = set_worker s.workers n (work n s.caught_signal (s.workers n)) })
    counts :
        is_active s.reporter.pc ≡ true
        → Step s (record s { reporter = report s.caught_signal (counters_of s.workers) s.reporter })

  pub data Reach : System → Type 0 where
    at_start : Reach started
    after : {s t : System} → Reach s → Step s t → Reach t

  -- `k` steps
  pub data Steps : ℕ → System → System → Type 0 where
    none_yet : {s : System} → Steps 0 s s
    one_more : {k : ℕ} {s t u : System} → Steps k s t → Step t u → Steps (suc k) s u
