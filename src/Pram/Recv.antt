-- ===== src/Pram/Recv.antt =====
-- userland-driver/tools/recv-to-pram.c: the receive rings are given the physical addresses of the
-- device memory, flushed once, and emptied again and again.
pub mod Init
pub mod Drain
pub mod All
pub mod Flush
pub mod Main
use Prim.Native.Nat.{bit_or}
use nvpkt.Base.{
  ℕ, zero, suc, ◌+◌, ◌-◌, ◌*◌, ◌^◌, Option, none, some, Bool, true, false, List, [], ◌∷◌, ◌++◌, ltb,
  ◌==◌, if◌then◌else◌, u32,
}
use nvpkt.Netmap.{Slot, Ring, Netmap, set_slot}
use nvpkt.Pram.Phys.{Pagemap, phy_addr}
use nvpkt.Pram.Slots.{nmslot_to_buf}

-- the receive rings of a port, by number
abbrev pub Rings : Type 0
Rings = ℕ → Ring

abbrev pub set_ring : Rings → ℕ → Ring → Rings
set_ring rings ri r j = if j == ri then r else rings j

module _ (nm : Netmap) (pm : Pagemap) (base : ℕ) where
  abbrev pub buffer_slot : Slot → ℕ → Slot
  buffer_slot s ptr = record s { flags = bit_or s.flags nm.ns_phy_indirect; ptr = ptr }

  -- the slots of ring `ri` from `idx` on, with the rounds left; `none` is the `exit` of `phy_addr`
  unfoldable pub init_slots : (ri left idx : ℕ) → Ring → Option Ring
  init_slots ri zero idx r = some r
  init_slots ri (suc left) idx r = elim (phy_addr pm (nmslot_to_buf base ri idx r.num_slots)) [
    | none ↦ none
    | some ptr ↦ init_slots ri left (idx + 1) (set_slot r idx (buffer_slot (r.slot idx) ptr))
  ]

  -- the rings from `ri` on, with the rounds left
  unfoldable pub init_rings : (left ri : ℕ) → Rings → Option Rings
  init_rings zero ri rings = some rings
  init_rings (suc left) ri rings = elim (init_slots ri (rings ri).num_slots 0 (rings ri)) [
    | none ↦ none
    | some r ↦ init_rings left (ri + 1) (set_ring rings ri r)
  ]

  -- The loop runs to `last_rx_ring`, that ring included.
  unfoldable pub init_nm_rx_ring_for_phy : (last_rx_ring : ℕ) → Rings → Option Rings
  unfolding init_rings init_slots
  init_nm_rx_ring_for_phy last_rx_ring rings = init_rings (last_rx_ring + 1) 0 rings

-- `ring->num_slots - 1`, of `unsigned` type
abbrev pub end_of_ring : Ring → Ring
end_of_ring r = let n = u32 (r.num_slots + 2 ^ 32 - 1) in record r { cur = n; head = n }

-- The flush, with `ri` and the rounds left; `rxsync` is what NIOCRXSYNC makes of the rings.
unfoldable pub flush_from : (Rings → Rings) → (left ri : ℕ) → Rings → Rings
flush_from rxsync zero ri rings = rings
flush_from rxsync (suc left) ri rings =
    flush_from rxsync left (ri + 1) (rxsync (set_ring rings ri (end_of_ring (rings ri))))

-- `ri` runs from `first_rx_ring` while it is below `last_rx_ring`.
unfoldable pub flush : (Rings → Rings) → (first_rx_ring last_rx_ring : ℕ) → Rings → Rings
unfolding flush_from
flush rxsync first_rx_ring last_rx_ring rings =
    flush_from rxsync (last_rx_ring - first_rx_ring) first_rx_ring rings

-- What is printed of a packet: the slot, and how many bytes from which address; in p2pmem mode also
-- the physical address.
pub record Shown : Type 0 where
  pub ri : ℕ
  pub idx : ℕ
  pub addr : ℕ
  pub paddr : Option ℕ
  pub len : ℕ

-- How the emptying of a ring or of all rings ends: `exited` is the `exit` of `phy_addr`.
pub data Drained (A : Type 0) : Type 0 where
  no_fuel exited : Drained A
  emptied : List Shown → A → Drained A

-- a packet, and what becomes of the others
abbrev pub with_first : {A : Type 0} → Option Shown → Drained A → Drained A
with_first none rest = exited
with_first (some s) no_fuel = no_fuel
with_first (some s) exited = exited
with_first (some s) (emptied later r) = emptied (s ∷ later) r

module _ (nm : Netmap) (no_p2pmem : Bool) (pm : Pagemap) (base : ℕ) (netmap_buf : ℕ → ℕ → ℕ) where
  -- at most 128 bytes of a packet are dumped
  abbrev pub dumped : Slot → ℕ
  dumped s = if ltb 128 s.len then 128 else s.len

  -- `netmap_buf` is NETMAP_BUF of a ring and a `buf_idx`.
  unfoldable pub show : (ri num_slots : ℕ) → (ℕ → Slot) → ℕ → Option Shown
  show ri num_slots slot idx =
      let pkt = nmslot_to_buf base ri idx num_slots in
      let len = dumped (slot idx) in
      if no_p2pmem
      then some (record {
        ri = ri;
        idx = idx;
        addr = netmap_buf ri (slot idx).buf_idx;
        paddr = none;
        len = len;
      })
      else elim (phy_addr pm pkt) [
        | none ↦ none
        | some paddr ↦
            some (record { ri = ri; idx = idx; addr = pkt; paddr = some paddr; len = len })
      ]

  -- the innermost loop, on fuel
  unfoldable pub drain : (fuel ri : ℕ) → Ring → Drained Ring
  unfolding show
  drain zero ri r = no_fuel
  drain (suc fuel) ri r =
      let cur = nm.nm_ring_next r r.head in
      let rest = drain fuel ri (record r { head = cur; cur = cur }) in
      if nm.nm_ring_empty r
      then emptied [] r
      else with_first (show ri r.num_slots r.slot r.head) rest

  -- The rings from `ri` on, with the rounds left.
  unfoldable pub drain_rings : (fuel left ri : ℕ) → Rings → Drained Rings
  unfolding drain
  drain_rings fuel zero ri rings = emptied [] rings
  drain_rings fuel (suc left) ri rings = elim (drain fuel ri (rings ri)) [
    | no_fuel ↦ no_fuel
    | exited ↦ exited
    | emptied seen r ↦ elim (drain_rings fuel left (ri + 1) (set_ring rings ri r)) [
      | no_fuel ↦ no_fuel
      | exited ↦ exited
      | emptied later rings' ↦ emptied (seen ++ later) rings'
    ]
  ]
