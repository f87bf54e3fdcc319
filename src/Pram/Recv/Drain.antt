-- ===== src/Pram/Recv/Drain.antt =====
-- userland-driver/tools/recv-to-pram.c: emptying a receive ring.
use nvpkt.Base.{
  ℕ, zero, suc, ◌<◌, ◌≤◌, ◌≡◌, refl, ap, ◌∙◌, none, some, Bool, false, List, [], ◌∷◌, ◌==◌, ==_self,
  arith, min, ltb, if◌then◌else◌, Bool-cases, inl, inr,
}
use nvpkt.Netmap.{Slot, Ring, Netmap, IsRing, IsNetmap}
use nvpkt.Netmap.Space.{space, following, following_in, ahead-following, ahead-bound}
use nvpkt.Pram.Phys.{Pagemap, phy_addr}
use nvpkt.Pram.Slots.{nmslot_to_buf}
use nvpkt.Pram.Recv.{Shown, emptied, with_first, show, drain}

-- `k` slots of a ring of `n`, from `cur` on
abbrev pub positions : (n cur k : ℕ) → List ℕ
positions n cur zero = []
positions n cur (suc k) = cur ∷ positions n (following n cur) k

module _ (nm : Netmap) (laws : IsNetmap nm) (no_p2pmem : Bool) (pm : Pagemap) (base : ℕ)
    (netmap_buf : ℕ → ℕ → ℕ) (phys : ℕ → ℕ)
    (known : (virt : ℕ) → phy_addr pm virt ≡ some (phys virt)) where
  -- what is printed of a slot
  abbrev pub shown : (ri num_slots : ℕ) → (ℕ → Slot) → ℕ → Shown
  shown ri num_slots slot idx =
      let pkt = nmslot_to_buf base ri idx num_slots in
      record {
        ri = ri;
        idx = idx;
        addr = if no_p2pmem then netmap_buf ri (slot idx).buf_idx else pkt;
        paddr = if no_p2pmem then none else some (phys pkt);
        len = min 128 (slot idx).len;
      }

  -- and of the slots of a list
  abbrev pub seen : (ri num_slots : ℕ) → (ℕ → Slot) → List ℕ → List Shown
  seen ri num_slots slot [] = []
  seen ri num_slots slot (i ∷ is) = shown ri num_slots slot i ∷ seen ri num_slots slot is

  abbrev moved : Ring → ℕ → Ring
  moved r cur = record r { head = cur; cur = cur }

  show-shown :
      (ri num_slots : ℕ) (slot : ℕ → Slot) (idx : ℕ)
      → show nm no_p2pmem pm base netmap_buf ri num_slots slot idx
        ≡ some (shown ri num_slots slot idx)
  unfolding show
  show-shown ri num_slots slot idx =
      let len : (if ltb 128 (slot idx).len then 128 else (slot idx).len) ≡ min 128 (slot idx).len =
        ground arith in
      elim (Bool-cases no_p2pmem) [
        | inl dram ↦ rw dram (
            ap
              (λ m. some (record {
                ri = ri;
                idx = idx;
                addr = netmap_buf ri (slot idx).buf_idx;
                paddr = none;
                len = m;
              }))
              len)
        | inr pram ↦
            let pkt = nmslot_to_buf base ri idx num_slots in
            rw (pram, known pkt)
              (ap
                (λ m.
                  some
                    (record { ri = ri; idx = idx; addr = pkt; paddr = some (phys pkt); len = m }))
                len)
      ]

  drain-suc :
      (fuel ri : ℕ) (r : Ring)
      → IsRing r
      → (r.cur == r.tail) ≡ false
      → drain nm no_p2pmem pm base netmap_buf (suc fuel) ri r
        ≡ with_first
            (some (shown ri r.num_slots r.slot r.cur))
            (drain nm no_p2pmem pm base netmap_buf fuel ri (moved r (following r.num_slots r.cur)))
  unfolding drain
  drain-suc fuel ri r h ne =
      rw
        (
          laws.empty r h,
          ne,
          show-shown ri r.num_slots r.slot r.head,
          laws.next r r.head,
          h.together,
        )
        refl

  drain-space :
      (fuel k ri : ℕ) (r : Ring)
      → IsRing r
      → space r ≡ k
      → k < fuel
      → drain nm no_p2pmem pm base netmap_buf fuel ri r
        ≡ emptied (seen ri r.num_slots r.slot (positions r.num_slots r.cur k)) (moved r r.tail)
  unfolding drain
  drain-space zero k ri r h e enough = absurd (omega arith)
  drain-space (suc fuel) zero ri r h e enough =
      let at : r.cur ≡ r.tail = ground arith in
      rw (laws.empty r h, at, ==_self r.tail)
        (ap (λ c. emptied [] (record r { head = c; cur = r.tail })) (h.together ∙ at))
  drain-space (suc fuel) (suc k) ri r h e enough =
      let not_at : (r.cur == r.tail) ≡ false = ground arith in
      let r' = moved r (following r.num_slots r.cur) in
      let h' : IsRing r' = record {
        cur_in = following_in r.num_slots r.cur h.cur_in;
        tail_in = h.tail_in;
        together = refl;
      } in
      let nearer : space r' ≡ k =
        ahead-following r.num_slots r.cur r.tail h.cur_in h.tail_in ∙ ground arith in
      drain-suc fuel ri r h not_at
      ∙ ap (with_first (some (shown ri r.num_slots r.slot r.cur)))
          (drain-space fuel k ri r' h' nearer (omega arith))

  -- the slots that the program owns, as they are shown
  abbrev pub pending : ℕ → Ring → List Shown
  pending ri r = seen ri r.num_slots r.slot (positions r.num_slots r.cur (space r))

  abbrev pub caught_up : Ring → Ring
  caught_up r = record r { head = r.tail; cur = r.tail }

  pub drain-pending :
      (fuel ri : ℕ) (r : Ring)
      → IsRing r
      → r.num_slots ≤ fuel
      → drain nm no_p2pmem pm base netmap_buf fuel ri r ≡ emptied (pending ri r) (caught_up r)
  drain-pending fuel ri r h enough =
      drain-space fuel (space r) ri r h refl
        (omega (arith, ahead-bound r.num_slots r.cur r.tail h.cur_in h.tail_in))

  -- If every byte has a physical address, a fuel of its number of slots empties a valid ring: what is
  -- printed are the slots that the program owns, each once and in the order of the ring, and the
  -- program's position is then the kernel's.
  pub drain_lem :
      (ri : ℕ) (r : Ring)
      → IsRing r
      → drain nm no_p2pmem pm base netmap_buf r.num_slots ri r
        ≡ emptied
            (seen ri r.num_slots r.slot (positions r.num_slots r.cur (space r)))
            (record r { head = r.tail; cur = r.tail })
  drain_lem ri r h = drain-pending r.num_slots ri r h (omega arith)
