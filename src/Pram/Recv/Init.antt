-- ===== src/Pram/Recv/Init.antt =====
-- userland-driver/tools/recv-to-pram.c, `init_nm_rx_ring_for_phy`: which slots get which address.
use mathlib.Core.Path.{fun_ext}
use nvpkt.Base.{
  ℕ, zero, suc, ◌+◌, ◌≡◌, refl, ◌∙◌, ap, some, true, false, ltb, leb, ◌&&◌, ◌==◌, if◌then◌else◌,
  Bool-cases, inl, inr, ◌≢◌, ==→eq, ==→ne, ==_self, arith,
}
use nvpkt.Netmap.{Slot, Ring, Netmap}
use nvpkt.Pram.Phys.{Pagemap, phy_addr}
use nvpkt.Pram.Slots.{nmslot_to_buf}
use nvpkt.Pram.Recv.{Rings, set_ring, buffer_slot, init_slots, init_rings, init_nm_rx_ring_for_phy}

module _ (nm : Netmap) (pm : Pagemap) (base : ℕ) (phys : ℕ → ℕ)
    (known : (virt : ℕ) → phy_addr pm virt ≡ some (phys virt)) where
  -- the slot with the physical address of its buffer
  abbrev pub placed : (ri idx num_slots : ℕ) → Slot → Slot
  placed ri idx num_slots s = buffer_slot nm pm base s (phys (nmslot_to_buf base ri idx num_slots))

  -- a ring of which the slots from `from`, below `end`, are placed
  abbrev pub placed_ring : (ri from end : ℕ) → Ring → Ring
  placed_ring ri from end r = record r {
    slot = λ i. if leb from i && ltb i end then placed ri i r.num_slots (r.slot i) else r.slot i;
  }

  init_slots-placed :
      (ri left idx : ℕ) (r : Ring)
      → init_slots nm pm base ri left idx r ≡ some (placed_ring ri idx (idx + left) r)
  unfolding init_slots
  init_slots-placed ri zero idx r =
      ap (λ s. some (record r { slot = s })) (fun_ext (λ i. ground arith))
  init_slots-placed ri (suc left) idx r =
      rw (init_slots, known (nmslot_to_buf base ri idx r.num_slots))
        (init_slots-placed ri left (idx + 1) _
          ∙ ap (λ s. some (record r { slot = s })) (fun_ext (λ i. ground arith)))

  -- ring `ri` and then the rings behind it
  one_more :
      (left ri j : ℕ) (rings : Rings)
      → let first = set_ring rings ri (placed_ring ri 0 (0 + (rings ri).num_slots) (rings ri)) in
        (if leb (ri + 1) j && ltb j (ri + 1 + left)
          then placed_ring j 0 (first j).num_slots (first j)
          else first j)
        ≡ (if leb ri j && ltb j (ri + suc left)
            then placed_ring j 0 (rings j).num_slots (rings j)
            else rings j)
  one_more left ri j rings = elim (Bool-cases (j == ri)) [
    | inl same ↦
        let n = (rings ri).num_slots in
        let behind : (leb (ri + 1) ri && ltb ri (ri + 1 + left)) ≡ false = ground arith in
        let within : (leb ri ri && ltb ri (ri + suc left)) ≡ true = ground arith in
        rw (==→eq j ri same, ==_self ri, behind, within)
          (ap (λ m. placed_ring ri 0 m (rings ri)) (omega arith))
    | inr other ↦
        let ne : j ≢ ri = ==→ne j ri other in
        let test : (leb (ri + 1) j && ltb j (ri + 1 + left)) ≡ (leb ri j && ltb j (ri + suc left)) =
          ground arith in
        rw (other, test) refl
  ]

  init_rings-placed :
      (left ri : ℕ) (rings : Rings)
      → init_rings nm pm base left ri rings
        ≡ some (λ j.
          if leb ri j && ltb j (ri + left)
          then placed_ring j 0 (rings j).num_slots (rings j)
          else rings j)
  unfolding init_rings
  init_rings-placed zero ri rings = ap some (fun_ext (λ j. ground arith))
  init_rings-placed (suc left) ri rings =
      rw (init_rings, init_slots-placed ri (rings ri).num_slots 0 (rings ri))
        (init_rings-placed left (ri + 1) _ ∙ ap some (fun_ext (λ j. one_more left ri j rings)))

  -- If every byte has a physical address, all slots of all receive rings, the last one included, get
  -- the address of their own buffer and the flag that says so; nothing else of the rings changes.
  pub init_nm_rx_ring_for_phy_lem :
      (last_rx_ring : ℕ) (rings : Rings)
      → init_nm_rx_ring_for_phy nm pm base last_rx_ring rings
        ≡ some (λ ri.
          if leb ri last_rx_ring
          then placed_ring ri 0 (rings ri).num_slots (rings ri)
          else rings ri)
  unfolding init_nm_rx_ring_for_phy
  init_nm_rx_ring_for_phy_lem last_rx_ring rings =
      init_rings-placed (last_rx_ring + 1) 0 rings ∙ ap some (fun_ext (λ j. ground arith))
