-- ===== src/Bench/Walk/Seq.antt =====
-- userland-driver/tools/bench-nvme.c, `next_lba` in the sequential walk: a cycle through the device.
use native.Mathlib.Nat.{
  le_refl, mul-le-mul_right, mod-add-mod, mod-eq_of_lt, mod-lt, mod_self, zero-mod,
  le-div_iff_mul-le, lt-div-mul-add,
}
use nvpkt.Base.{
  ℕ, zero, suc, ◌+◌, ◌-◌, ◌*◌, ◌/◌, ◌%◌, ◌^◌, ◌≤◌, ◌<◌, ◌≡◌, sym, ◌∙◌, ap, ◌⊎◌, inl, inr, u64,
  lt→ltb, le→ltb, arith, dec_lt,
}
use nvpkt.Bench.Walk.{seq, next_lba}

-- the `k`-th i/o of a sequential walk from block 0
pub walk_from_zero : (block_end nblocks k : ℕ) → ℕ
walk_from_zero block_end nblocks zero = 0
walk_from_zero block_end nblocks (suc k) =
    next_lba seq 0 (walk_from_zero block_end nblocks k) block_end nblocks

-- The number of steps after which the walk is back at block 0.
abbrev pub period : (block_end nblocks : ℕ) → ℕ
period block_end nblocks = (block_end - 1) / nblocks

-- The bounds that the division gives, with the products as numbers of their own.
period_bounds :
    (block_end nblocks : ℕ)
    → 0 < nblocks
    → nblocks < block_end
    → (period block_end nblocks * nblocks < block_end)
      × (block_end ≤ period block_end nblocks * nblocks + nblocks)
period_bounds block_end nblocks some_blocks room = (
  omega (
    arith,
    (le-div_iff_mul-le {k = nblocks} {x = period block_end nblocks} {y = block_end - 1}
          some_blocks).0
        (le_refl _),
  ),
  omega (arith, lt-div-mul-add {a = block_end - 1} {b = nblocks} some_blocks),
)

module _ (block_end nblocks : ℕ) (small : block_end < 2 ^ 62) (some_blocks : 0 < nblocks)
    (room : nblocks < block_end) where
  step_inside :
      (r : ℕ)
      → r + 1 < period block_end nblocks
      → next_lba seq 0 (r * nblocks) block_end nblocks ≡ (r + 1) * nblocks
  unfolding next_lba
  step_inside r inside =
      let fits : r * nblocks + nblocks + nblocks < block_end =
        multiple (period block_end nblocks) inside
          (period_bounds block_end nblocks some_blocks room).0 in
      rw (lt→ltb (u64 (r * nblocks + u64 (nblocks * 2))) block_end (omega (arith, fits)))
        (omega (arith, fits))
    where
      multiple :
          (q : ℕ)
          → r + 1 < q
          → q * nblocks < block_end
          → r * nblocks + nblocks + nblocks < block_end
      multiple q h k = omega (arith, mul-le-mul_right {m = r + 2} {n = q} nblocks (omega arith))

  step_last :
      (r : ℕ)
      → r + 1 ≡ period block_end nblocks
      → next_lba seq 0 (r * nblocks) block_end nblocks ≡ 0
  unfolding next_lba
  step_last r last =
      let (under, over) = period_bounds block_end nblocks some_blocks room in
      let same : (r + 1) * nblocks ≡ period block_end nblocks * nblocks =
        ap (λ q. q * nblocks) last in
      rw (
        le→ltb (u64 (r * nblocks + u64 (nblocks * 2))) block_end (omega (arith, under, over, same)))

-- The remainder of the next number.
mod-suc :
    (k q : ℕ)
    → 0 < q
    → ((k % q + 1 < q) × (suc k % q ≡ k % q + 1)) ⊎ ((k % q + 1 ≡ q) × (suc k % q ≡ 0))
mod-suc k q pos = elim (dec_lt (k % q + 1) q) [
  | yes more ↦ inl (more, step ∙ mod-eq_of_lt more)
  | no last ↦
      let full : k % q + 1 ≡ q = omega (arith, mod-lt k pos) in
      inr (full, step ∙ rw full (mod_self q))
]
  where
    step : suc k % q ≡ (k % q + 1) % q
    step = ap (λ m. m % q) (omega arith) ∙ sym (mod-add-mod k q 1)

-- For a device of less than 2^62 blocks and an i/o of at least one block and smaller than the
-- device, the sequential walk from block 0 goes through the multiples of the blocks of an i/o in
-- order, and starts again at block 0 after (block_end - 1) / nblocks steps.
pub walk_from_zero_lem :
    (block_end nblocks k : ℕ)
    → block_end < 2 ^ 62
    → 0 < nblocks
    → nblocks < block_end
    → walk_from_zero block_end nblocks k ≡ k % period block_end nblocks * nblocks
unfolding walk_from_zero
walk_from_zero_lem block_end nblocks zero small some_blocks room = rw zero-mod (omega arith)
walk_from_zero_lem block_end nblocks (suc k) small some_blocks room =
    rw (walk_from_zero_lem block_end nblocks k small some_blocks room) (
      next (
        mod-suc k (period block_end nblocks) (
          (le-div_iff_mul-le {k = nblocks} {x = 1} {y = block_end - 1} some_blocks).1
            (omega arith))))
  where
    r : ℕ
    r = k % period block_end nblocks

    next :
        ((r + 1 < period block_end nblocks) × (suc k % period block_end nblocks ≡ r + 1))
          ⊎ ((r + 1 ≡ period block_end nblocks) × (suc k % period block_end nblocks ≡ 0))
        → next_lba seq 0 (r * nblocks) block_end nblocks
          ≡ suc k % period block_end nblocks * nblocks
    next (inl (inside, e)) =
        rw (step_inside block_end nblocks small some_blocks room r inside)
          (ap (λ m. m * nblocks) (sym e))
    next (inr (last, e)) =
        rw (step_last block_end nblocks small some_blocks room r last) (rw e (omega arith))
