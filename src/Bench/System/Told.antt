-- ===== src/Bench/System/Told.antt =====
-- userland-driver/tools/bench-nvme.c, `print_interval_result`: what the reporter knows of the counters
-- between two of its steps.
use nvpkt.Base.{
  ℕ, zero, suc, ◌+◌, ◌^◌, ◌≤◌, ◌<◌, ◌≡◌, ap, Bool, true, false, List, u64, pos_part, arith,
}
use nvpkt.Bench.Interval.{sum_from}
use nvpkt.Bench.Args.{Config}
use nvpkt.Bench.Main.{Machine}
use nvpkt.Bench.System.{
  Totals, minus, ReporterPc, unborn, testing, gone, starting, asleep, ending, report,
}
use nvpkt.Bench.System.Inv.{is_unborn}
use nvpkt.Bench.System.Sums.{sum_from-split, sum_from-next, sum_from_mono, total, total-append}

-- What the reporter knows of the threads' counters, with the sum of what it has printed.
abbrev pub Told : (ncpus : ℕ) → (ℕ → ℕ) → ReporterPc → (printed : ℕ) → Type 0
Told ncpus c (starting left n sums) printed =
    (n + left ≡ ncpus) × (sums.ios ≤ sum_from c n 0) × (printed ≤ sums.ios + sum_from c left n)
Told ncpus c (asleep start) printed = (start.ios ≤ sum_from c ncpus 0) × (printed ≤ start.ios)
Told ncpus c (ending start left n sums) printed =
    (n + left ≡ ncpus)
    × (sums.ios ≤ sum_from c n 0)
    × (start.ios ≤ sums.ios + sum_from c left n)
    × (printed ≤ start.ios)
Told ncpus c _ printed = printed ≤ sum_from c ncpus 0

pub Told-mono :
    (ncpus : ℕ) (c d : ℕ → ℕ)
    → ((i : ℕ) → c i ≤ d i)
    → (pc : ReporterPc) (printed : ℕ) → Told ncpus c pc printed
    → Told ncpus d pc printed
Told-mono ncpus c d more unborn printed t = omega (arith, t, sum_from_mono c d more ncpus 0)
Told-mono ncpus c d more testing printed t = omega (arith, t, sum_from_mono c d more ncpus 0)
Told-mono ncpus c d more gone printed t = omega (arith, t, sum_from_mono c d more ncpus 0)
Told-mono ncpus c d more (asleep start) printed (a, b) =
    (omega (arith, a, sum_from_mono c d more ncpus 0), b)
Told-mono ncpus c d more (starting left n sums) printed (e, a, b) = (
  e,
  omega (arith, a, sum_from_mono c d more n 0),
  omega (arith, b, sum_from_mono c d more left n),
)
Told-mono ncpus c d more (ending start left n sums) printed (e, a, b, f) = (
  e,
  omega (arith, a, sum_from_mono c d more n 0),
  omega (arith, b, sum_from_mono c d more left n),
  f,
)

module _ (m : Machine) (p : Config) where
  pub report-Told :
      (caught : Bool) (counters : ℕ → Totals) (c : ℕ → ℕ)
      → ((i : ℕ) → (counters i).ios ≡ u64 (c i))
      → sum_from c (pos_part p.ncpus) 0 < 2 ^ 64
      → (pc : ReporterPc) (xs : List Totals) → Told (pos_part p.ncpus) c pc (total xs)
      → let r' = report m p caught counters (record { pc = pc; printed = xs }) in
        Told (pos_part p.ncpus) c r'.pc (total r'.printed)
  unfolding report
  report-Told caught counters c words small unborn xs t = t
  report-Told true counters c words small testing xs t = t
  report-Told false counters c words small testing xs t =
      (omega arith, omega arith, omega (arith, t))
  report-Told caught counters c words small gone xs t = t
  report-Told caught counters c words small (starting zero n sums) xs (e, a, b) =
      let n_all : n ≡ pos_part p.ncpus = omega (arith, e) in
      (omega (arith, a, ap (λ k. sum_from c k 0) n_all), omega (arith, b))
  report-Told caught counters c words small (starting (suc left) n sum) xs (e, a, b) =
      let (next, whole) = sum_from-next c n left (pos_part p.ncpus) e in
      let here = words n in
      (
        omega (arith, e),
        omega (arith, a, next, here),
        omega (arith, b, a, next, whole, here, small),
      )
  report-Told caught counters c words small (asleep start) xs (a, b) =
      (omega arith, omega arith, omega (arith, a), b)
  report-Told caught counters c words small (ending start zero n sums) xs (e, a, b, f) =
      let n_all : n ≡ pos_part p.ncpus = omega (arith, e) in
      omega
        (arith, a, b, f, small, ap (λ k. sum_from c k 0) n_all, total-append xs (minus sums start))
  report-Told caught counters c words small (ending start (suc left) n sum) xs (e, a, b, f) =
      let (next, whole) = sum_from-next c n left (pos_part p.ncpus) e in
      let here = words n in
      (
        omega (arith, e),
        omega (arith, a, next, here),
        omega (arith, b, a, next, whole, here, small),
        f,
      )

  pub unborn-Told :
      (c : ℕ → ℕ) (pc : ReporterPc) (printed : ℕ)
      → is_unborn pc ≡ true
      → Told (pos_part p.ncpus) c pc printed
      → Told (pos_part p.ncpus) c testing printed
  unborn-Told c unborn printed u t = t
  unborn-Told c testing printed u t = t
  unborn-Told c gone printed u t = t
  unborn-Told c (starting left n sums) printed u t = absurd cc
  unborn-Told c (asleep start) printed u t = absurd cc
  unborn-Told c (ending start left n sums) printed u t = absurd cc

  pub Told-total :
      (c : ℕ → ℕ) (pc : ReporterPc) (printed : ℕ)
      → Told (pos_part p.ncpus) c pc printed
      → printed ≤ sum_from c (pos_part p.ncpus) 0
  Told-total c unborn printed t = t
  Told-total c testing printed t = t
  Told-total c gone printed t = t
  Told-total c (asleep start) printed (a, b) = omega (arith, a, b)
  Told-total c (starting left n sums) printed (e, a, b) =
      omega (arith, a, b, sum_from-split c n left 0 n (pos_part p.ncpus) (omega arith) e)
  Told-total c (ending start left n sums) printed (e, a, b, f) =
      omega (arith, a, b, f, sum_from-split c n left 0 n (pos_part p.ncpus) (omega arith) e)
