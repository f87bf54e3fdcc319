-- ===== src/Bench/System/Left.antt =====
-- userland-driver/tools/bench-nvme.c: the steps that are left of a run once the signal is caught.
use nvpkt.Base.{
  ℕ, zero, suc, ◌+◌, ◌≤◌, ◌<◌, ◌≡◌, ◌≢◌, refl, ap, true, ◌==◌, pos_part, Bool-cases, inl, inr,
  ==→eq, ==→ne, arith,
}
use nvpkt.Bench.Interval.{sum_from}
use nvpkt.Bench.Args.{Config}
use nvpkt.Bench.Main.{Machine}
use nvpkt.Bench.System.{
  Totals, Pc, waiting, created, head, exited, submitting, polling, Worker, is_running, ReporterPc,
  unborn, testing, gone, starting, asleep, ending, Reporter, is_active, MainPc, joining,
  joining_reporter, System, work, report,
}

-- of a thread, the reporter and `main`
abbrev pub work_left : (batch : ℕ) → Pc → ℕ
work_left batch waiting = 0
work_left batch created = 2
work_left batch head = 1
work_left batch (submitting left b) = left + batch + 3
work_left batch (polling left b) = left + 2
work_left batch exited = 0

abbrev pub report_left : (ncpus : ℕ) → ReporterPc → ℕ
report_left ncpus unborn = 0
report_left ncpus testing = 1
report_left ncpus (starting left n sums) = left + ncpus + 4
report_left ncpus (asleep start) = ncpus + 3
report_left ncpus (ending start left n sums) = left + 2
report_left ncpus gone = 0

abbrev pub main_left : MainPc → ℕ
main_left (joining left n) = left + 2
main_left joining_reporter = 1
main_left _ = 0

-- Where one number changes, so does the sum.
pub sum_from-above :
    (f g : ℕ → ℕ) (i left n : ℕ)
    → ((j : ℕ) → j ≢ i → g j ≡ f j)
    → i < n
    → sum_from g left n ≡ sum_from f left n
sum_from-above f g i zero n same h = refl
sum_from-above f g i (suc left) n same h =
    rw
      (same n (λ e. omega (arith, e, h)), sum_from-above f g i left (n + 1) same (omega (arith, h)))
      refl

pub sum_from-change :
    (f g : ℕ → ℕ) (i left n : ℕ)
    → ((j : ℕ) → j ≢ i → g j ≡ f j)
    → n ≤ i
    → i < n + left
    → sum_from g left n + f i ≡ sum_from f left n + g i
sum_from-change f g i zero n same h k = absurd (omega (arith, h, k))
sum_from-change f g i (suc left) n same h k = elim (Bool-cases (n == i)) [
  | inl e ↦
      let here = ==→eq n i e in
      let rest = sum_from-above f g i left (n + 1) same (omega (arith, here)) in
      let fs = ap f here in let gs = ap g here in omega (arith, rest, fs, gs)
  | inr e ↦
      let ne = ==→ne n i e in
      let rest =
        sum_from-change f g i left (n + 1) same (ground (arith, ne, h)) (omega (arith, k)) in
      let here = same n ne in omega (arith, rest, here)
]

module _ (m : Machine) (p : Config) where
  pub work-work_left :
      (n : ℕ) (w : Worker)
      → is_running w.pc ≡ true
      → work_left (pos_part p.batch) (work m p n true w).pc + 1 ≡ work_left (pos_part p.batch) w.pc
  unfolding work
  work-work_left n w r = ground arith

  pub report-report_left :
      (counters : ℕ → Totals) (r : Reporter)
      → is_active r.pc ≡ true
      → report_left (pos_part p.ncpus) (report m p true counters r).pc + 1
        ≡ report_left (pos_part p.ncpus) r.pc
  unfolding report
  report-report_left counters r a = ground arith

  abbrev pub steps_left : System → ℕ
  steps_left s =
      main_left s.main
      + report_left (pos_part p.ncpus) s.reporter.pc
      + sum_from (λ n. work_left (pos_part p.batch) (s.workers n).pc) (pos_part p.ncpus) 0
