-- ===== src/Bench/Interval/Reports.antt =====
-- userland-driver/tools/bench-nvme.c, `report_interval`: what all reports say together.
use nvpkt.Base.{ℕ, zero, suc, ◌+◌, ◌≡◌, refl, subst, u64, sum, arith}
use nvpkt.Bench.Interval.{report_interval, sum_from, interval_lem, sum_from-grown}

-- what all threads have done between the two readings of each report
abbrev pub reported : (ncpus : ℕ) → (done : ℕ → ℕ → ℕ) → (left t : ℕ) → ℕ
reported ncpus done zero t = 0
reported ncpus done (suc left) t = sum_from (done t) ncpus 0 + reported ncpus done left (t + 2)

-- and between the second reading of one and the first of the next
abbrev pub unreported : (ncpus : ℕ) → (done : ℕ → ℕ → ℕ) → (left t : ℕ) → ℕ
unreported ncpus done zero t = 0
unreported ncpus done (suc left) t =
    sum_from (done (t + 1)) ncpus 0 + unreported ncpus done left (t + 2)

-- If the counter of each thread grows, as a machine word, from each reading to the next by what the
-- thread has done in between: all differences that are printed are together, as a machine word, what
-- all threads have done within the reports, and with what they have done between the reports it is
-- all that they have done since the first reading.
pub report_interval_lem :
    (ncpus : ℕ) (reading done : ℕ → ℕ → ℕ) (left t : ℕ)
    → ((t n : ℕ) → u64 (reading (t + 1) n) ≡ u64 (reading t n + done t n))
    → (u64 (sum (report_interval ncpus reading left t)) ≡ u64 (reported ncpus done left t))
      × (u64 (sum_from (reading (t + (left + left))) ncpus 0)
          ≡ u64 (
              sum_from (reading t) ncpus 0
              + (sum (report_interval ncpus reading left t) + unreported ncpus done left t)))
unfolding report_interval
report_interval_lem ncpus reading done zero t grown =
    let same : t + (0 + 0) ≡ t = omega arith in (refl, rw same (omega arith))
report_interval_lem ncpus reading done (suc left) t grown =
    let first = interval_lem ncpus (reading t) (reading (t + 1)) (done t) (grown t) in
    let (in_reports, in_all) = report_interval_lem ncpus reading done left (t + 2) grown in
    let to_second = sum_from-grown (reading t) (reading (t + 1)) (done t) (grown t) ncpus 0 in
    let next : t + 1 + 1 ≡ t + 2 = omega arith in
    let to_next : u64 (sum_from (reading (t + 2)) ncpus 0)
        ≡ u64 (sum_from (reading (t + 1)) ncpus 0 + sum_from (done (t + 1)) ncpus 0) =
      sum_from-grown (reading (t + 1)) (reading (t + 2)) (done (t + 1))
        (subst (λ m. (n : ℕ) → u64 (reading m n) ≡ u64 (reading (t + 1) n + done (t + 1) n)) next
          (grown (t + 1)))
        ncpus 0 in
    let end : t + (suc left + suc left) ≡ t + 2 + (left + left) = omega arith in
    (omega (arith, first, in_reports), rw end (omega (arith, first, in_all, to_second, to_next)))
