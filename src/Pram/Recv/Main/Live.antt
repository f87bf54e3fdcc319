-- ===== src/Pram/Recv/Main/Live.antt =====
-- userland-driver/tools/recv-to-pram.c: every packet that the kernel hands over is printed.
use mathlib.Core.List.{Memᴰ}
use mathlib.Core.List.Memᴰ.{append_left, append_right, head, tail}
use nvpkt.Base.{
  ℕ, zero, suc, ◌+◌, ◌<◌, ◌≤◌, ◌≡◌, sym, ap, ◌∙◌, subst, some, Bool, true, false, Bool-cases, inl,
  inr, List, [], ◌∷◌, ◌==◌, ==→eq, ==→ne, ==_self, leb, ltb, ◌&&◌, ltb_ℤ, pos, arith,
}
use nvpkt.Netmap.{Slot, Netmap, IsNetmap}
use nvpkt.Netmap.Space.{ahead, space, following, following_in, ahead-following}
use nvpkt.Pram.Phys.{Pagemap, phy_addr}
use nvpkt.Pram.Recv.{Rings, Shown}
use nvpkt.Pram.Recv.Drain.{positions, shown, seen, pending}
use nvpkt.Pram.Recv.All.{all_pending}
use nvpkt.Pram.Recv.Main.{Outside, passes, pass}
use nvpkt.Pram.Recv.Main.Loop.{
  AllValid, IsKernel, polled, polled-AllValid, rx_rings, printed, left_by, left_by-AllValid,
  pass_lem,
}

positions-Mem : (n cur k i : ℕ) → cur < n → i < n → ahead n cur i < k → Memᴰ i (positions n cur k)
positions-Mem n cur zero i h hi near = absurd (omega arith)
positions-Mem n cur (suc k) i h hi near = elim (Bool-cases (i == cur)) [
  | inl here ↦ head (==→eq i cur here)
  | inr there ↦
      let nearer : ahead n (following n cur) i < k =
        rw (ahead-following n cur i h hi, there) (ground arith) in
      tail (positions-Mem n (following n cur) k i (following_in n cur h) hi nearer)
]

module _ (nm : Netmap) (laws : IsNetmap nm) (no_p2pmem : Bool) (pm : Pagemap) (base : ℕ)
    (netmap_buf : ℕ → ℕ → ℕ) (phys : ℕ → ℕ)
    (known : (virt : ℕ) → phy_addr pm virt ≡ some (phys virt)) where
  seen-Mem :
      (ri n i : ℕ) (slot : ℕ → Slot) (is : List ℕ)
      → Memᴰ i is
      → Memᴰ
          (shown nm laws no_p2pmem pm base netmap_buf phys known ri n slot i)
          (seen nm laws no_p2pmem pm base netmap_buf phys known ri n slot is)
  seen-Mem ri n i slot [] m = absurd (elim m [ ])
  seen-Mem ri n i slot (x ∷ is) (head e) =
      head (ap (shown nm laws no_p2pmem pm base netmap_buf phys known ri n slot) e)
  seen-Mem ri n i slot (x ∷ is) (tail m) = tail (seen-Mem ri n i slot is m)

  all_pending-Mem :
      (left ri j : ℕ) (rings : Rings) (s : Shown)
      → ri ≤ j
      → j < ri + left
      → Memᴰ s (pending nm laws no_p2pmem pm base netmap_buf phys known j (rings j))
      → Memᴰ s (all_pending nm laws no_p2pmem pm base netmap_buf phys known left ri rings)
  all_pending-Mem zero ri j rings s low high m = absurd (omega arith)
  all_pending-Mem (suc left) ri j rings s low high m = elim (Bool-cases (ri == j)) [
    | inl here ↦ append_left _ (
        subst (λ i. Memᴰ s (pending nm laws no_p2pmem pm base netmap_buf phys known i (rings i)))
          (sym (==→eq ri j here)) m)
    | inr there ↦
        let ne = ==→ne ri j there in
        append_right _ (all_pending-Mem left (ri + 1) j rings s (omega (arith, ne)) (omega arith) m)
  ]

module _ (o : Outside) (kernel : IsKernel o) (laws : IsNetmap o.netmap) (no_p2pmem : Bool)
    (phys : ℕ → ℕ) (known : (virt : ℕ) → phy_addr o.pagemap virt ≡ some (phys virt)) where
  -- the slot as it is printed
  abbrev pub shown_of : Rings → ℕ → ℕ → Shown
  shown_of rings j i =
      shown o.netmap laws no_p2pmem o.pagemap o.buf o.netmap_buf phys known j (rings j).num_slots
        (rings j).slot i

  -- From valid rings that are no larger than the fuel, with a netmap that does what is documented
  -- and memory that has physical addresses, in a pass whose NIOCRXSYNC succeeds: the pass comes to
  -- its end, every slot of a receive ring that the kernel has handed over behind `poll` (one
  -- between the program's position and the kernel's) is among what it prints, and that ring is then
  -- empty.
  pub pass-prints :
      (fuel t : ℕ) (rings : Rings) (j i : ℕ)
      → AllValid rings
      → ((j : ℕ) → (rings j).num_slots ≤ fuel)
      → ltb_ℤ (o.rxsync t rings).0 (pos 0) ≡ false
      → o.first_rx_ring ≤ j
      → j ≤ o.last_rx_ring
      → i < (polled o t rings j).num_slots
      → ahead (polled o t rings j).num_slots (polled o t rings j).cur i < space (polled o t rings j)
      → (more : List Shown) × (rings' : Rings) × (pass o no_p2pmem fuel t rings
          ≡ passes more rings')
        × Memᴰ (shown_of (polled o t rings) j i) more
        × (o.netmap.nm_ring_empty (rings' j) ≡ true)
  pass-prints fuel t rings j i valid small good low high inside handed_over =
      let now = polled o t rings j in
      let below : j < o.first_rx_ring + rx_rings o = omega arith in
      let mine : (leb o.first_rx_ring j && ltb j (o.first_rx_ring + rx_rings o)) ≡ true =
        ground arith in
      (
        printed o kernel laws no_p2pmem phys known t rings,
        left_by o kernel laws no_p2pmem phys known t rings,
        elim (pass_lem o kernel laws no_p2pmem phys known fuel t rings valid small) [
          | inl (bad, e) ↦ (let clash : true ≡ false = sym bad ∙ good in cc)
          | inr e ↦ e
        ],
        all_pending-Mem o.netmap laws no_p2pmem o.pagemap o.buf o.netmap_buf phys known (rx_rings o)
            o.first_rx_ring j (polled o t rings) _ low below
            (seen-Mem o.netmap laws no_p2pmem o.pagemap o.buf o.netmap_buf phys known j
              now.num_slots i now.slot (positions now.num_slots now.cur (space now))
              (positions-Mem now.num_slots now.cur (space now) i
                (polled-AllValid o kernel t rings valid j).cur_in inside handed_over)),
        laws.empty _ (left_by-AllValid o kernel laws no_p2pmem phys known t rings valid j)
            ∙ rw mine (==_self now.tail),
      )
