-- ===== src/Bench/System/Sums.antt =====
-- userland-driver/tools/bench-nvme.c, `print_interval_result`: sums of a counter over the threads.
use nvpkt.Base.{ℕ, zero, suc, ◌+◌, ◌≤◌, ◌≡◌, refl, ap, sym, ◌∙◌, arith, List, [], ◌∷◌, ◌++◌}
use nvpkt.Bench.Interval.{sum_from}
use nvpkt.Bench.System.{Totals}

-- The threads up to `k`, and those from there on.
pub sum_from-split :
    (c : ℕ → ℕ) (a b j k total : ℕ)
    → j + a ≡ k
    → a + b ≡ total
    → sum_from c a j + sum_from c b k ≡ sum_from c total j
sum_from-split c zero b j k total e f =
    let same : j ≡ k = omega arith in
    let whole : b ≡ total = omega arith in
    omega (arith, ap (sum_from c b) same, ap (λ n. sum_from c n j) whole)
sum_from-split c (suc a) b j k zero e f = absurd (omega arith)
sum_from-split c (suc a) b j k (suc total) e f =
    omega (arith, sum_from-split c a b (j + 1) k total (omega arith) (omega arith))

-- Thread `n` goes over from the threads ahead to those behind.
pub sum_from-next :
    (c : ℕ → ℕ) (n left total : ℕ)
    → n + suc left ≡ total
    → (sum_from c (n + 1) 0 ≡ sum_from c n 0 + c n)
      × (sum_from c n 0 + c n + sum_from c left (n + 1) ≡ sum_from c total 0)
sum_from-next c n left total e = (
  sym (sum_from-split c n 1 0 n (n + 1) (omega arith) refl) ∙ omega arith,
  omega (arith, sum_from-split c n (suc left) 0 n total (omega arith) e),
)

pub sum_from_mono :
    (c d : ℕ → ℕ) → ((i : ℕ) → c i ≤ d i) → (left n : ℕ) → sum_from c left n ≤ sum_from d left n
sum_from_mono c d more zero n = omega arith
sum_from_mono c d more (suc left) n = omega (arith, more n, sum_from_mono c d more left (n + 1))

-- the i/os of all reports
abbrev pub total : List Totals → ℕ
total [] = 0
total (x ∷ xs) = x.ios + total xs

pub total-append : (xs : List Totals) (x : Totals) → total (xs ++ (x ∷ [])) ≡ total xs + x.ios
total-append [] x = omega arith
total-append (y ∷ xs) x = omega (arith, total-append xs x)
