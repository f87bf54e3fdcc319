-- ===== src/Bench/Walk.antt =====
-- userland-driver/tools/bench-nvme.c, `next_lba`: where the next i/o of a thread goes.
pub mod Range
pub mod Seq
use nvpkt.Base.{ℕ, ◌+◌, ◌-◌, ◌*◌, ◌/◌, ◌%◌, ◌^◌, ltb, ◌==◌, if◌then◌else◌, u64}

-- WALK_RANDOM, WALK_SEQ, WALK_SAME
pub data Walk : Type 0 where
  random seq same : Walk

-- All are `unsigned long`; `rand` is what `rand()` returns, if it is called.
unfoldable pub next_lba : Walk → (rand lba block_end nblocks : ℕ) → ℕ
next_lba random rand lba block_end nblocks = rand % u64 (block_end + 2 ^ 64 - nblocks)
next_lba same rand lba block_end nblocks = lba
next_lba seq rand lba block_end nblocks =
    if ltb (u64 (lba + u64 (nblocks * 2))) block_end then u64 (lba + nblocks) else 0

-- `block_end`, the size of the device that the code has built in
abbrev pub device_end : ℕ
device_end = 0xe8e088b0

-- The blocks of one i/o of `size` bytes.
unfoldable pub blocks_of : ℕ → ℕ
blocks_of size = if size % 512 == 0 then size / 512 else size / 512 + 1

-- `th[n].slba` of `main`, in `unsigned int` arithmetic, which stays below `device_end`.
unfoldable pub start_lba : ℕ → ℕ → ℕ
start_lba ncpus n = device_end / ncpus * n
