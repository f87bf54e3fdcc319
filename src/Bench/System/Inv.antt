-- ===== src/Bench/System/Inv.antt =====
-- userland-driver/tools/bench-nvme.c: what holds at any moment of a run of `main` with its threads.
pub mod Steps
use nvpkt.Base.{
  ℕ, suc, ◌+◌, ◌<◌, ◌≡◌, ◌≢◌, refl, ap, sym, ◌∙◌, subst, Bool, true, false, leb, ◌==◌, ==→eq, ==→ne,
  pos_part, Bool-cases, inl, inr, arith,
}
use nvpkt.Bench.Thread.{Thread}
use nvpkt.Bench.Args.{Config}
use nvpkt.Bench.Main.{Machine}
use nvpkt.Bench.System.{
  Totals, Pc, waiting, created, head, exited, submitting, polling, Worker, is_waiting, is_running,
  ReporterPc, unborn, gone, Reporter, is_active, MainPc, creating, joining, sleeping,
  joining_reporter, closed, System, set_worker, work, report, create, started, Step, creates,
  reports, wakes, joins, all_joined, closes, works, counts, Reach, at_start, after,
}
use nvpkt.Bench.System.Rounds.{At, work-At}

-- A worker that is replaced, and the others.
pub set_worker-all :
    (P : ℕ → Worker → Type 0) (ws : ℕ → Worker) (n : ℕ) (w : Worker)
    → P n w
    → ((i : ℕ) → i ≢ n → P i (ws i))
    → (i : ℕ) → P i (set_worker ws n w i)
set_worker-all P ws n w here there i = elim (Bool-cases (i == n)) [
  | inl e ↦ rw e (subst (λ j. P j w) (sym (==→eq i n e)) here)
  | inr e ↦ rw e (there i (==→ne i n e))
]

-- one more
joined-next : (n i : ℕ) (P : ℕ → Type 0) → P n → (i < n → P i) → i < n + 1 → P i
joined-next n i P last before h = elim (Bool-cases (i == n)) [
  | inl e ↦ subst P (sym (==→eq i n e)) last
  | inr e ↦ before (let ne = ==→ne i n e in ground (arith, ne, h))
]

-- the threads that `main` has created, and those that it has waited for
abbrev pub created_by : (ncpus : ℕ) → MainPc → ℕ
created_by ncpus (creating left n) = n
created_by ncpus _ = ncpus

abbrev pub joined_by : (ncpus : ℕ) → MainPc → ℕ
joined_by ncpus (joining left n) = n
joined_by ncpus joining_reporter = ncpus
joined_by ncpus closed = ncpus
joined_by ncpus _ = 0

abbrev pub is_joining : MainPc → Bool
is_joining (creating left n) = false
is_joining sleeping = false
is_joining _ = true

abbrev pub is_creating : MainPc → Bool
is_creating (creating left n) = true
is_creating _ = false

abbrev pub is_unborn : ReporterPc → Bool
is_unborn unborn = true
is_unborn _ = false

-- The loops of `main` run over all cpus.
abbrev pub InPlace : (ncpus : ℕ) → MainPc → Type 0
InPlace ncpus (creating left n) = n + left ≡ ncpus
InPlace ncpus (joining left n) = n + left ≡ ncpus
InPlace ncpus _ = Unit

module _ (m : Machine) (p : Config) where
  pub record Good (pc : MainPc) (caught : Bool) (n : ℕ) (w : Worker) : Type 0 where
    pub placed : At m p n w.pc w.round w.thread
    pub created : is_waiting w.pc ≡ leb (created_by (pos_part p.ncpus) pc) n
    pub joined : n < joined_by (pos_part p.ncpus) pc → w.pc ≡ exited
    pub stopped : w.pc ≡ exited → caught ≡ true

  pub record Inv (s : System) : Type 0 where
    pub workers : (n : ℕ) → Good s.main s.caught_signal n (s.workers n)
    pub in_place : InPlace (pos_part p.ncpus) s.main
    pub caught : s.caught_signal ≡ is_joining s.main
    pub born : is_unborn s.reporter.pc ≡ is_creating s.main
    pub over : s.main ≡ closed → s.reporter.pc ≡ gone

  started-Inv : Inv (started m p)
  started-Inv = record {
    workers = λ n. record {
      placed = (refl, refl);
      created = ground arith;
      joined = λ h. absurd (omega (arith, h));
      stopped = λ e. cc;
    };
    in_place = omega arith;
    caught = refl;
    born = refl;
    over = λ e. cc;
  }

  -- A step of a thread keeps it created; it ends only when the signal is caught.
  work-created :
      (n : ℕ) (caught : Bool) (w : Worker)
      → is_running w.pc ≡ true
      → (is_waiting w.pc ≡ false) × (is_waiting (work m p n caught w).pc ≡ false)
  unfolding work
  work-created n caught w r = ground arith

  work-stopped :
      (n : ℕ) (caught : Bool) (w : Worker)
      → is_running w.pc ≡ true
      → (work m p n caught w).pc ≡ exited
      → caught ≡ true
  unfolding work
  work-stopped n caught w r = ground arith

  work-Good :
      (pc : MainPc) (caught : Bool) (n : ℕ) (w : Worker)
      → is_running w.pc ≡ true
      → Good pc caught n w
      → Good pc caught n (work m p n caught w)
  work-Good pc caught n w r g =
      let (before, now) = work-created n caught w r in
      record {
        placed = work-At m p n caught w.pc w.round w.thread g.placed;
        created = now ∙ sym before ∙ g.created;
        joined = λ h. absurd (let e = g.joined h in ground (arith, e, r));
        stopped = work-stopped n caught w r;
      }

  -- A thread that waits has made no round.
  waiting-round :
      (n : ℕ) (pc : Pc) (r : ℕ) (th : Thread) → is_waiting pc ≡ true → At m p n pc r th → r ≡ 0
  waiting-round n waiting r th w a = a.0
  waiting-round n created r th w a = absurd cc
  waiting-round n head r th w a = absurd cc
  waiting-round n exited r th w a = absurd cc
  waiting-round n (submitting left b) r th w a = absurd cc
  waiting-round n (polling left b) r th w a = absurd cc

  -- `main` goes on.
  Good-moved :
      {pc pc' : MainPc} {caught : Bool} {n : ℕ} {w : Worker}
      → Good pc caught n w
      → leb (created_by (pos_part p.ncpus) pc) n ≡ leb (created_by (pos_part p.ncpus) pc') n
      → (n < joined_by (pos_part p.ncpus) pc' → w.pc ≡ exited)
      → Good pc' caught n w
  Good-moved g e joined = record {
    placed = g.placed;
    created = g.created ∙ e;
    joined = joined;
    stopped = g.stopped;
  }

  -- the threads, where `main` is known
  pub goods :
      {s : System} {pc : MainPc}
      → Inv s
      → s.main ≡ pc
      → (n : ℕ) → Good pc s.caught_signal n (s.workers n)
  goods {s} v e n = subst (λ pc. Good pc s.caught_signal n (s.workers n)) e (v.workers n)

  -- what a thread's counters may become by the reporter's step
  report-pc :
      (caught : Bool) (counters : ℕ → Totals) (r : Reporter)
      → is_active r.pc ≡ true
      → is_unborn (report m p caught counters r).pc ≡ is_unborn r.pc
  unfolding report
  report-pc caught counters r a = ground arith
