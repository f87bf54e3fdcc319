-- ===== src/Pram/Recv/Flush.antt =====
-- userland-driver/tools/recv-to-pram.c: which rings the flush moves.
use nvpkt.Base.{
  ℕ, zero, suc, ◌+◌, ◌-◌, ◌≤◌, ◌^◌, ◌≡◌, ◌∙◌, ap, ltb, leb, ◌&&◌, if◌then◌else◌, u32, arith,
}
use nvpkt.Pram.Recv.{Rings, set_ring, end_of_ring, flush_from, flush}

-- NIOCRXSYNC leaves the program's position alone.
pub record KeepsPosition (rxsync : Rings → Rings) : Type 0 where
  pub cur : (rings : Rings) (i : ℕ) → (rxsync rings i).cur ≡ (rings i).cur
  pub num_slots : (rings : Rings) (i : ℕ) → (rxsync rings i).num_slots ≡ (rings i).num_slots

-- where the position of ring `i` is after the flush of the rings from `ri`, below `end`
abbrev pub flushed_cur : (ri end : ℕ) → Rings → ℕ → ℕ
flushed_cur ri end rings i =
    if leb ri i && ltb i end then u32 ((rings i).num_slots + 2 ^ 32 - 1) else (rings i).cur

module _ (rxsync : Rings → Rings) (keeps : KeepsPosition rxsync) where
  flush_from-cur :
      (left ri i : ℕ) (rings : Rings)
      → (flush_from rxsync left ri rings i).cur ≡ flushed_cur ri (ri + left) rings i
  unfolding flush_from
  flush_from-cur zero ri i rings = ground arith
  flush_from-cur (suc left) ri i rings =
      flush_from-cur left (ri + 1) i (rxsync (set_ring rings ri (end_of_ring (rings ri))))
      ∙ rw (keeps.cur, keeps.num_slots) (ground arith)

  -- If NIOCRXSYNC leaves the program's positions and the numbers of slots alone, the flush moves
  -- every ring from the first up to the last but one to its last slot, and leaves all others, the
  -- last one among them, where they are.
  flush_lem :
      (first last i : ℕ) (rings : Rings)
      → first ≤ last
      → (flush rxsync first last rings i).cur ≡ flushed_cur first last rings i
  unfolding flush
  flush_lem first last i rings order =
      flush_from-cur (last - first) first i rings
      ∙ ap (λ end. flushed_cur first end rings i) (omega (arith, order))
