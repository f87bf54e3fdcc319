-- ===== src/Bench/Elapsed.antt =====
-- userland-driver/tools/bench-nvme.c, `get_usec_elapsed`.
use nvpkt.Base.{
  ℕ, ◌+◌, ◌-◌, ◌*◌, ◌≤◌, ◌<◌, ◌^◌, ◌≡◌, ℤ, pos, ltb_ℤ, ltb→lt, ltb→le, Bool-cases, inl, inr, pos-+ℤ,
  pos--ℤ, pos-*ℤ, ◌+ℤ◌, ◌-ℤ◌, ◌*ℤ◌, to_u64, if◌then◌else◌, arith,
}

-- `struct timeval`, two signed numbers
pub record Timeval : Type 0 where
  pub tv_sec : ℤ
  pub tv_usec : ℤ

-- a second is borrowed
abbrev pub borrow : Timeval → Timeval → Timeval
borrow start end =
    if ltb_ℤ end.tv_usec start.tv_usec
    then record { tv_sec = end.tv_sec -ℤ pos 1; tv_usec = end.tv_usec +ℤ pos 1000000 }
    else end

unfoldable pub get_usec_elapsed : Timeval → Timeval → ℕ
get_usec_elapsed start end =
    let end' = borrow start end in
    to_u64 ((end'.tv_sec -ℤ start.tv_sec) *ℤ pos 1000000 +ℤ end'.tv_usec -ℤ start.tv_usec)

-- the microseconds since the epoch
abbrev pub total : ℕ → ℕ → ℕ
total sec usec = sec * 1000000 + usec

-- Between two times of the clock with less than a million microseconds each, the second not before
-- the first and below 2^64 microseconds, it is their distance.
pub get_usec_elapsed_lem :
    (s u s' u' : ℕ)
    → u < 1000000
    → u' < 1000000
    → total s u ≤ total s' u'
    → total s' u' < 2 ^ 64
    → get_usec_elapsed
        (record { tv_sec = pos s; tv_usec = pos u })
        (record { tv_sec = pos s'; tv_usec = pos u' })
      ≡ total s' u' - total s u
unfolding get_usec_elapsed
get_usec_elapsed_lem s u s' u' hu hu' order small = elim (Bool-cases (ltb_ℤ (pos u') (pos u))) [
  | inl less ↦
      let lt : u' < u = omega (arith, ltb→lt (u' + 0) (u + 0) less) in
      rw
        (
          less,
          pos--ℤ s' 1 (omega arith),
          pos-+ℤ u' 1000000,
          pos--ℤ (s' - 1) s (omega arith),
          pos-*ℤ,
          pos-+ℤ,
          pos--ℤ ((s' - 1 - s) * 1000000 + (u' + 1000000)) u (omega arith),
        )
        (omega arith)
  | inr more ↦
      let le : u ≤ u' = omega (arith, ltb→le (u' + 0) (u + 0) more) in
      rw
        (
          more,
          pos--ℤ s' s (omega arith),
          pos-*ℤ,
          pos-+ℤ,
          pos--ℤ ((s' - s) * 1000000 + u') u (omega arith),
        )
        (omega arith)
]
