-- ===== src/Bench/Walk/Range.antt =====
-- userland-driver/tools/bench-nvme.c: no i/o goes beyond the end of the device.
use native.Mathlib.Nat.{le_refl, le-div_iff_mul-le}
use nvpkt.Base.{ℕ, ◌+◌, ◌*◌, ◌/◌, ◌^◌, ◌≤◌, ◌<◌, arith}
use nvpkt.Bench.Walk.{Walk, random, seq, same, next_lba, device_end, blocks_of, start_lba}

-- the i/o at `lba` lies within the device
abbrev pub Fits : (lba block_end nblocks : ℕ) → Type 0
Fits lba block_end nblocks = lba + nblocks ≤ block_end

-- From an i/o within a device of less than 2^63 blocks, which is larger than the i/o, every walk
-- goes to an i/o within the device.
pub next_lba-Fits :
    (walk : Walk) (rand lba block_end nblocks : ℕ)
    → block_end < 2 ^ 63
    → nblocks < block_end
    → Fits lba block_end nblocks
    → Fits (next_lba walk rand lba block_end nblocks) block_end nblocks
unfolding next_lba
next_lba-Fits random rand lba block_end nblocks small room h = grind arith
next_lba-Fits seq rand lba block_end nblocks small room h = ground arith
next_lba-Fits same rand lba block_end nblocks small room h = h

-- The blocks of an i/o are the fewest that hold its bytes.
pub blocks_of_bounds :
    (size : ℕ) → (size ≤ blocks_of size * 512) × (blocks_of size * 512 < size + 512)
unfolding blocks_of
blocks_of_bounds size = ground arith

-- Each of up to 32 threads starts within the device, for an i/o of up to 2^30
-- bytes.
pub start_lba-Fits :
    (ncpus n size : ℕ)
    → n < ncpus
    → ncpus ≤ 32
    → size ≤ 2 ^ 30
    → Fits (start_lba ncpus n) device_end (blocks_of size)
unfolding start_lba
start_lba-Fits ncpus n size below few small =
    within (device_end / ncpus) (blocks_of size)
      ((le-div_iff_mul-le {k = ncpus} {x = device_end / ncpus} {y = device_end} (omega arith)).0
        (le_refl _))
      share (omega (arith, blocks_of_bounds size))
  where
    share : 122094661 ≤ device_end / ncpus
    share = (le-div_iff_mul-le {k = ncpus} (omega arith)).1 (omega arith)

    within :
        (q blocks : ℕ)
        → q * ncpus ≤ device_end
        → 122094661 ≤ q
        → blocks ≤ 122094661
        → q * n + blocks ≤ device_end
    within q blocks all h k = grind arith
