-- ===== src/Pram/Recv/Main/Own.antt =====
-- userland-driver/tools/recv-to-pram.c: the physical addresses that the loop prints.
use mathlib.Core.List.{Memᴰ}
use mathlib.Core.List.Memᴰ.{append_cases, head, tail}
use nvpkt.Base.{
  ℕ, zero, suc, ◌+◌, ◌<◌, ◌≤◌, ◌≡◌, refl, sym, ap, ◌∙◌, subst, some, Bool, false, Bool-cases, inl,
  inr, List, [], ◌++◌, leb, ltb, ◌&&◌, arith,
}
use nvpkt.Netmap.{Slot, Netmap, IsNetmap}
use nvpkt.Netmap.Space.{space, following, following_in}
use nvpkt.Pram.Phys.{Pagemap, phy_addr}
use nvpkt.Pram.Slots.{nmslot_to_buf}
use nvpkt.Pram.Recv.{Rings, Shown}
use nvpkt.Pram.Recv.Drain.{positions, shown, seen}
use nvpkt.Pram.Recv.All.{all_pending}
use nvpkt.Pram.Recv.Main.{Outside, serve}
use nvpkt.Pram.Recv.Main.Loop.{
  AllValid, IsKernel, polled, polled_num_slots, polled_ptr, polled-AllValid, rx_rings, printed,
  left_by, left_by_num_slots, Found, serve-Found,
}

module _ (nm : Netmap) (laws : IsNetmap nm) (no_p2pmem : Bool) (pm : Pagemap) (base : ℕ)
    (netmap_buf : ℕ → ℕ → ℕ) (phys : ℕ → ℕ)
    (known : (virt : ℕ) → phy_addr pm virt ≡ some (phys virt)) where
  abbrev as_shown : (ri num_slots : ℕ) → (ℕ → Slot) → ℕ → Shown
  as_shown = shown nm laws no_p2pmem pm base netmap_buf phys known

  -- what holds of every slot of a ring holds of those that are printed
  seen-P :
      (P : Shown → Type 0) (ri n : ℕ) (slot : ℕ → Slot)
      → ((i : ℕ) → i < n → P (as_shown ri n slot i))
      → (cur k : ℕ) → cur < n
      → (s : Shown)
      → Memᴰ s (seen nm laws no_p2pmem pm base netmap_buf phys known ri n slot (positions n cur k))
      → P s
  seen-P P ri n slot p cur zero h s m = absurd (elim m [ ])
  seen-P P ri n slot p cur (suc k) h s (head e) = subst P (sym e) (p cur h)
  seen-P P ri n slot p cur (suc k) h s (tail m) =
      seen-P P ri n slot p (following n cur) k (following_in n cur h) s m

  -- and of the rings
  all_pending-P :
      (P : Shown → Type 0) (left ri : ℕ) (rings : Rings)
      → AllValid rings
      → ((j i : ℕ)
          → j < ri + left
          → i < (rings j).num_slots
          → P (as_shown j (rings j).num_slots (rings j).slot i))
      → (s : Shown)
      → Memᴰ s (all_pending nm laws no_p2pmem pm base netmap_buf phys known left ri rings)
      → P s
  all_pending-P P zero ri rings valid p s m = absurd (elim m [ ])
  all_pending-P P (suc left) ri rings valid p s m =
      let r = rings ri in
      elim (append_cases
        (seen nm laws no_p2pmem pm base netmap_buf phys known ri r.num_slots r.slot
          (positions r.num_slots r.cur (space r)))
        m) [
          | inl here ↦
              seen-P P ri r.num_slots r.slot (λ i h. p ri i (omega arith) h) r.cur (space r)
                (valid ri).cur_in s here
          | inr later ↦
              all_pending-P P left (ri + 1) rings valid (λ j i h. p j i (omega (arith, h))) s later
        ]

-- Every slot has the physical address of its own buffer.
abbrev pub AllPlaced : Outside → (ℕ → ℕ) → Rings → Type 0
AllPlaced o phys rings =
    (j i : ℕ)
    → j ≤ o.last_rx_ring
    → i < (rings j).num_slots
    → ((rings j).slot i).ptr ≡ phys (nmslot_to_buf o.buf j i (rings j).num_slots)

-- The addresses in the slots are those at the start, and with every packet the address in its slot
-- has been printed.
pub record IsOwn (start : Rings) (seen : List Shown) (rings : Rings) : Type 0 where
  pub num_slots : (j : ℕ) → (rings j).num_slots ≡ (start j).num_slots
  pub ptr : (j i : ℕ) → ((rings j).slot i).ptr ≡ ((start j).slot i).ptr
  pub printed : (s : Shown) → Memᴰ s seen → s.paddr ≡ some ((start s.ri).slot s.idx).ptr

module _ (o : Outside) (kernel : IsKernel o) (laws : IsNetmap o.netmap) (phys : ℕ → ℕ)
    (known : (virt : ℕ) → phy_addr o.pagemap virt ≡ some (phys virt)) where
  one_pass :
      (start : Rings) (t : ℕ) (seen : List Shown) (rings : Rings)
      → o.first_rx_ring ≤ o.last_rx_ring
      → AllPlaced o phys start
      → AllValid rings
      → IsOwn start seen rings
      → IsOwn start
          (seen ++ printed o kernel laws false phys known t rings)
          (left_by o kernel laws false phys known t rings)
  one_pass start t seen rings order placed valid h = record {
    num_slots = λ j. left_by_num_slots o kernel laws false phys known t rings j ∙ h.num_slots j;
    ptr = λ j i. elim (Bool-cases (leb o.first_rx_ring j && ltb j (o.first_rx_ring + rx_rings o))) [
      | inl inside ↦ rw inside (polled_ptr o kernel t rings j i ∙ h.ptr j i)
      | inr outside ↦ rw outside (polled_ptr o kernel t rings j i ∙ h.ptr j i)
    ];
    printed = λ s m. elim (append_cases seen m) [
      | inl before ↦ h.printed s before
      | inr now ↦
          all_pending-P o.netmap laws false o.pagemap o.buf o.netmap_buf phys known
            (λ s. s.paddr ≡ some ((start s.ri).slot s.idx).ptr) (rx_rings o) o.first_rx_ring
            (polled o t rings) (polled-AllValid o kernel t rings valid)
            (λ j i low inside.
              let size : (polled o t rings j).num_slots ≡ (start j).num_slots =
                polled_num_slots o kernel t rings j ∙ h.num_slots j in
              ap (λ n. some (phys (nmslot_to_buf o.buf j i n))) size
              ∙ ap some
                  (sym (placed j i (omega (arith, low, order)) (subst (λ n. i < n) size inside))))
            s now
    ];
  }

  -- From rings in which every slot has the address of its own buffer, the loop keeps it so, and
  -- prints of every packet the address that its slot has.
  pub serve-IsOwn :
      (fuel left : ℕ) (rings : Rings)
      → o.first_rx_ring ≤ o.last_rx_ring
      → AllPlaced o phys rings
      → AllValid rings
      → ((j : ℕ) → (rings j).num_slots ≤ fuel)
      → Found o kernel laws false phys known (IsOwn rings) (serve o false fuel left 0 [] rings)
  serve-IsOwn fuel left rings order placed valid small =
      serve-Found o kernel laws false phys known (IsOwn rings)
        (λ t seen rings' valid' h. one_pass rings t seen rings' order placed valid' h) fuel left 0
        [] rings valid small
        (record { num_slots = λ j. refl; ptr = λ j i. refl; printed = λ s m. absurd (elim m [ ]) })
