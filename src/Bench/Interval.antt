-- ===== src/Bench/Interval.antt =====
-- userland-driver/tools/bench-nvme.c, `print_interval_result`: the counters of all threads before and
-- after a second, and what is printed of them.
pub mod Reports
use nvpkt.Base.{ℕ, zero, suc, List, [], ◌∷◌, ◌+◌, ◌-◌, ◌^◌, ◌<◌, ◌≡◌, refl, u64, ◌∙◌, arith}

-- The sum of a counter over the threads from `n` on, with their number left; an `unsigned long`.
unfoldable pub total_from : (ℕ → ℕ) → (left n sum : ℕ) → ℕ
total_from counter zero n sum = sum
total_from counter (suc left) n sum = total_from counter left (n + 1) (u64 (sum + counter n))

-- `count_end - count_start`, and the same for the bytes
unfoldable pub interval : (ncpus : ℕ) → (start end : ℕ → ℕ) → ℕ
unfolding total_from
interval ncpus start end = u64 (total_from end ncpus 0 0 + 2 ^ 64 - total_from start ncpus 0 0)

-- `report_interval`: the differences that are printed before the signal is seen, with their number
-- left and the number of the reading of the counters; each report takes two readings.
unfoldable pub report_interval : (ncpus : ℕ) → (reading : ℕ → ℕ → ℕ) → (left t : ℕ) → List ℕ
unfolding interval
report_interval ncpus reading zero t = []
report_interval ncpus reading (suc left) t =
    interval ncpus (reading t) (reading (t + 1)) ∷ report_interval ncpus reading left (t + 2)

-- the exact sum of what each thread has done
abbrev pub sum_from : (ℕ → ℕ) → (left n : ℕ) → ℕ
sum_from f zero n = 0
sum_from f (suc left) n = f n + sum_from f left (n + 1)

total_from-sum :
    (f : ℕ → ℕ) (left n s : ℕ) → u64 (total_from f left n s) ≡ u64 (s + sum_from f left n)
unfolding total_from
total_from-sum f zero n s = omega arith
total_from-sum f (suc left) n s = total_from-sum f left (n + 1) (u64 (s + f n)) ∙ omega arith

total_from_small : (f : ℕ → ℕ) (left n s : ℕ) → s < 2 ^ 64 → total_from f left n s < 2 ^ 64
unfolding total_from
total_from_small f zero n s h = h
total_from_small f (suc left) n s h = total_from_small f left (n + 1) (u64 (s + f n)) (omega arith)

pub sum_from-grown :
    (start end done : ℕ → ℕ)
    → ((n : ℕ) → u64 (end n) ≡ u64 (start n + done n))
    → (left n : ℕ) → u64 (sum_from end left n) ≡ u64 (sum_from start left n + sum_from done left n)
sum_from-grown start end done grown zero n = refl
sum_from-grown start end done grown (suc left) n =
    omega (arith, grown n, sum_from-grown start end done grown left (n + 1))

-- If the counter of each thread has grown, as a machine word, by what the thread has done in between,
-- the difference that is printed is, as a machine word, the sum of that over all threads, also where
-- counters or their sums have wrapped.
pub interval_lem :
    (ncpus : ℕ) (start end done : ℕ → ℕ)
    → ((n : ℕ) → u64 (end n) ≡ u64 (start n + done n))
    → interval ncpus start end ≡ u64 (sum_from done ncpus 0)
unfolding interval
interval_lem ncpus start end done grown = omega (
  arith,
  total_from-sum start ncpus 0 0,
  total_from-sum end ncpus 0 0,
  total_from_small start ncpus 0 0 (omega arith),
  total_from_small end ncpus 0 0 (omega arith),
  sum_from-grown start end done grown ncpus 0,
)
