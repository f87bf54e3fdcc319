-- ===== src/Pram/Send.antt =====
-- userland-driver/tools/xmit-from-pram.c, `main`, from the loop on: one packet at a physical address
-- is put into the transmit ring again and again.
pub mod Fill
pub mod Loop
pub mod Handed
pub mod Main
use nvpkt.Base.{
  ℕ, zero, suc, ◌+◌, ◌*◌, ◌^◌, Bool, ltb, if◌then◌else◌, List, ◌∷◌, u16, ℤ, pos, pos_part, to_u64,
  ltb_ℤ,
}
use Prim.Native.Nat.{bit_or}
use nvpkt.Netmap.{Slot, Ring, Netmap, set_slot}

-- What stands outside: the kernel at the `round`-th NIOCTXSYNC, its status and what it makes of the
-- ring.
abbrev pub Txsync : Type 0
Txsync = ℕ → Ring → ℤ × Ring

-- How the loop ends: the status that `main` returns, the packets that were put into the ring, the
-- ring, and the ring as NIOCTXSYNC found it each time, newest first.
pub record Sent : Type 0 where
  pub ret : ℤ
  pub n : ℕ
  pub ring : Ring
  pub synced : List Ring

-- How the loop is found: not at its end when the fuel is used up; at a sum `n + b` that no `int` holds,
-- which C leaves undefined; or at its end.
pub data LoopEnd : Type 0 where
  unfinished : LoopEnd
  overflown : LoopEnd
  ended : Sent → LoopEnd

module _ (nm : Netmap) (pktlen : ℤ) (paddr : ℕ) where
  -- `slot->len` has 16 bits.
  abbrev pub packet_in : Slot → Slot
  packet_in s = record s {
    len = u16 (to_u64 pktlen);
    ptr = paddr;
    flags = bit_or s.flags nm.ns_phy_indirect;
  }

  -- the inner loop, with its rounds left
  unfoldable pub fill : ℕ → Ring → Ring
  fill zero r = r
  fill (suc left) r =
      let r = set_slot r r.cur (packet_in (r.slot r.cur)) in
      let cur = nm.nm_ring_next r r.cur in fill left (record r { cur = cur; head = cur })

  module _ (txsync : Txsync) (count batch : ℤ) where
    -- The outer loop; `n` is an `int`, and `b` is the batch behind the inner loop, or 0.
    unfoldable pub send_loop : (fuel round n : ℕ) → ℤ → Ring → List Ring → LoopEnd
    send_loop zero round n ret r synced = unfinished
    send_loop (suc fuel) round n ret r synced =
        let filled = fill (pos_part batch) r in
        let (ret', r') = txsync round filled in
        let n' = n + pos_part batch in
        let synced' = filled ∷ synced in
        let rest = send_loop fuel (round + 1) n' ret' r' synced' in
        if ltb_ℤ (pos n) count
        then (if nm.nm_ring_empty r
            then ended (record { ret = ret; n = n; ring = r; synced = synced })
            else if ltb_ℤ ret' (pos 0)
            then ended (record { ret = ret'; n = n'; ring = r'; synced = synced' })
            else if ltb n' (2 ^ 31)
            then rest
            else overflown)
        else ended (record { ret = ret; n = n; ring = r; synced = synced })
