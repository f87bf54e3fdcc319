-- ===== src/Pram/Send/Handed.antt =====
-- userland-driver/tools/xmit-from-pram.c: which slots each NIOCTXSYNC hands to the kernel, and what is in
-- them.
use Prim.Native.Nat.{bit_or}
use nvpkt.Base.{
  ℕ, zero, suc, ◌+◌, ◌-◌, ◌*◌, ◌^◌, ◌<◌, ◌≤◌, ◌≡◌, refl, sym, ◌∙◌, subst, List, [], ◌∷◌, length,
  ltb, if◌then◌else◌, ℤ, pos, pos_part, ltb_ℤ, u16, to_u64, lt→ltb, Bool-cases, inl, inr, arith,
}
use nvpkt.Netmap.{Slot, Ring, Netmap, IsRing, IsNetmap}
use nvpkt.Netmap.Space.{ahead, following}
use nvpkt.Pram.Send.{
  Txsync, Sent, LoopEnd, unfinished, overflown, ended, packet_in, fill, send_loop,
}
use nvpkt.Pram.Send.Fill.{filled_at, fill-suc, filled_IsRing, fill_num_slots, fill-IsRing, fill_lem}

-- the position `j` slots back, and `j` slots on, in a ring of `n`
abbrev pub back : (n cur j : ℕ) → ℕ
back n cur j = if ltb cur j then cur + n - j else cur - j

abbrev pub forward : (n cur j : ℕ) → ℕ
forward n cur j = if ltb (cur + j) n then cur + j else cur + j - n

-- the last `k` slots in front of the position, in their order
pub handed : ℕ → Ring → List Slot
handed zero r = []
handed (suc k) r = r.slot (back r.num_slots r.cur (suc k)) ∷ handed k r

module _ (nm : Netmap) (pktlen : ℤ) (paddr : ℕ) where
  -- A slot for the packet in memory: the kernel reads `len` bytes at the physical address `ptr`.
  pub record IsPacket (s : Slot) : Type 0 where
    pub len : s.len ≡ u16 (to_u64 pktlen)
    pub ptr : s.ptr ≡ paddr
    pub flags : (f : ℕ) × (s.flags ≡ bit_or f nm.ns_phy_indirect)

  abbrev pub AllPackets : List Slot → Type 0
  AllPackets [] = Unit
  AllPackets (s ∷ ss) = IsPacket s × AllPackets ss

  module _ (laws : IsNetmap nm) where
    fill-forward :
        (left : ℕ) (r : Ring)
        → IsRing r
        → left ≤ r.num_slots
        → (fill nm pktlen paddr left r).cur ≡ forward r.num_slots r.cur left
    unfolding fill
    fill-forward zero r h small = ground (arith, h.cur_in)
    fill-forward (suc left) r h small = rw (fill-suc nm laws pktlen paddr) (
        fill-forward left (filled_at nm laws pktlen paddr r (following r.num_slots r.cur))
          (filled_IsRing nm laws pktlen paddr r h) (omega arith)
        ∙ ground (arith, h.cur_in))

    handed-fill :
        (batch k : ℕ) (r : Ring)
        → IsRing r
        → batch ≤ r.num_slots
        → k ≤ batch
        → AllPackets (handed k (fill nm pktlen paddr batch r))
    unfolding handed
    handed-fill batch zero r h small le = tt
    handed-fill batch (suc k) r h small le =
        let r' = fill nm pktlen paddr batch r in
        let i = back r'.num_slots r'.cur (suc k) in
        let n = fill_num_slots nm laws pktlen paddr batch r in
        let c = fill-forward batch r h small in
        let i_in : i < r.num_slots = ground (arith, n, c, h.cur_in) in
        let near : ahead r.num_slots r.cur i < batch = ground (arith, n, c, h.cur_in) in
        let slot : r'.slot i ≡ packet_in nm pktlen paddr (r.slot i) =
          fill_lem nm laws pktlen paddr batch r i h small i_in
          ∙ rw (lt→ltb (ahead r.num_slots r.cur i) batch near) refl in
        (
          subst IsPacket (sym slot)
              (record { len = refl; ptr = refl; flags = ((r.slot i).flags, refl) }),
          handed-fill batch k r h small (omega arith),
        )

-- NIOCTXSYNC leaves a valid ring of the same size.
pub record KeepsRing (txsync : Txsync) : Type 0 where
  pub ring : (i : ℕ) (r : Ring) → IsRing r → IsRing (txsync i r).1
  pub size : (i : ℕ) (r : Ring) → (txsync i r).1.num_slots ≡ r.num_slots

module _ (nm : Netmap) (pktlen : ℤ) (paddr : ℕ) (txsync : Txsync) (count batch : ℤ) where
  -- Each NIOCTXSYNC found the packet in all slots of a batch in front of the position.
  abbrev pub AllSynced : List Ring → Type 0
  AllSynced [] = Unit
  AllSynced (r ∷ rs) = AllPackets nm pktlen paddr (handed (pos_part batch) r) × AllSynced rs

  pub record IsCarried (s : Sent) : Type 0 where
    pub synced : AllSynced s.synced
    pub counted : s.n ≡ length s.synced * pos_part batch

  abbrev IsCarriedOr : LoopEnd → Type 0
  IsCarriedOr unfinished = Unit
  IsCarriedOr overflown = Unit
  IsCarriedOr (ended s) = IsCarried s

  pub send_loop-IsCarried :
      (laws : IsNetmap nm) (keeps : KeepsRing txsync) (fuel round n : ℕ) (ret : ℤ) (r : Ring)
      (synced : List Ring)
      → IsRing r
      → pos_part batch ≤ r.num_slots
      → AllSynced synced
      → n ≡ length synced * pos_part batch
      → IsCarriedOr (send_loop nm pktlen paddr txsync count batch fuel round n ret r synced)
  unfolding send_loop
  send_loop-IsCarried laws keeps zero round n ret r synced h small all counted = tt
  send_loop-IsCarried laws keeps (suc fuel) round n ret r synced h small all counted =
      let b = pos_part batch in
      let filled = fill nm pktlen paddr b r in
      let r' = (txsync round filled).1 in
      let size = keeps.size round filled ∙ fill_num_slots nm laws pktlen paddr b r in
      let all' : AllSynced (filled ∷ synced) =
        (handed-fill nm pktlen paddr laws b b r h small (omega arith), all) in
      let counted' : n + b ≡ length (filled ∷ synced) * b = omega (arith, counted) in
      elim (Bool-cases (ltb_ℤ (pos n) count)) [
        | inr stop ↦ rw stop (record { synced = all; counted = counted })
        | inl more ↦ elim (Bool-cases (nm.nm_ring_empty r)) [
          | inl full ↦ rw (more, full) (record { synced = all; counted = counted })
          | inr room ↦ elim (Bool-cases (ltb_ℤ (txsync round filled).0 (pos 0))) [
            | inl failed ↦ rw (more, room, failed) (record { synced = all'; counted = counted' })
            | inr good ↦ elim (Bool-cases (ltb (n + b) (2 ^ 31))) [
              | inr big ↦ rw (more, room, good, big) tt
              | inl holds ↦
                  rw (more, room, good, holds)
                    (send_loop-IsCarried laws keeps fuel (round + 1) (n + b) (txsync round filled).0
                      r' (filled ∷ synced)
                      (keeps.ring round filled (fill-IsRing nm laws pktlen paddr b r h))
                      (omega (arith, size)) all' counted')
            ]
          ]
        ]
      ]
