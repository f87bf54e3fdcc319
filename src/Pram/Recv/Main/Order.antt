-- ===== src/Pram/Recv/Main/Order.antt =====
-- userland-driver/tools/recv-to-pram.c: the slots of a ring that the loop prints, over all its passes.
use mathlib.Core.List.{append-nil}
use native.Mathlib.Nat.{mod-eq_of_lt, add-mod_left, mod-add-mod}
use nvpkt.Base.{
  ℕ, zero, suc, ◌+◌, ◌%◌, ◌<◌, ◌≤◌, ◌≡◌, refl, sym, ap, ◌∙◌, some, Bool, true, false, Bool-cases,
  inl, inr, List, [], ◌∷◌, ◌++◌, ◌==◌, ==→eq, ==_self, leb, ltb, ◌&&◌, if◌then◌else◌, arith,
}
use nvpkt.Netmap.{Slot, Ring, Netmap, IsRing, IsNetmap}
use nvpkt.Netmap.Space.{space, following, following_in, following-mod}
use nvpkt.Pram.Phys.{Pagemap, phy_addr}
use nvpkt.Pram.Recv.{Rings, Shown}
use nvpkt.Pram.Recv.Drain.{positions, seen}
use nvpkt.Pram.Recv.All.{all_pending}
use nvpkt.Pram.Recv.Main.{Outside, serve}
use nvpkt.Pram.Recv.Main.Loop.{
  AllValid, IsKernel, polled, polled_cur, polled_num_slots, polled-AllValid, rx_rings, printed,
  left_by, Found, serve-Found,
}

-- the slots of ring `j` among those that were printed
abbrev pub of_ring : ℕ → List Shown → List ℕ
of_ring j [] = []
of_ring j (s ∷ ss) = if s.ri == j then s.idx ∷ of_ring j ss else of_ring j ss

of_ring-append : (j : ℕ) (xs ys : List Shown) → of_ring j (xs ++ ys) ≡ of_ring j xs ++ of_ring j ys
of_ring-append j [] ys = refl
of_ring-append j (s ∷ xs) ys = elim (Bool-cases (s.ri == j)) [
  | inl here ↦ rw (here, of_ring-append j xs ys) refl
  | inr there ↦ rw (there, of_ring-append j xs ys) refl
]

positions-append :
    (n cur a b : ℕ)
    → cur < n
    → positions n cur (a + b) ≡ positions n cur a ++ positions n ((cur + a) % n) b
positions-append n cur zero b h =
    let start : (cur + 0) % n ≡ cur = ap (λ c. c % n) (omega arith) ∙ mod-eq_of_lt h in
    rw start (ap (positions n cur) (omega arith))
positions-append n cur (suc a) b h =
    let more : suc a + b ≡ suc (a + b) = omega arith in
    ap (positions n cur) more
    ∙ ap (λ is. cur ∷ is)
        (positions-append n (following n cur) a b (following_in n cur h)
          ∙ ap (λ c. positions n (following n cur) a ++ positions n c b) (following-mod n cur a h))

space-mod : (r : Ring) → IsRing r → (r.cur + space r) % r.num_slots ≡ r.tail
space-mod r h = elim (Bool-cases (ltb r.tail r.cur)) [
  | inl behind ↦
      ap (λ m. m % r.num_slots) (ground arith)
      ∙ add-mod_left r.num_slots r.tail
      ∙ mod-eq_of_lt h.tail_in
  | inr ahead ↦ ap (λ m. m % r.num_slots) (ground arith) ∙ mod-eq_of_lt h.tail_in
]

-- The slots of a ring that the program owns follow the `k` slots from `c` on.
module _ (r : Ring) (n c k : ℕ) (size : r.num_slots ≡ n) (at : r.cur ≡ (c + k) % n) where
  positions-space :
      c < n → positions n c k ++ positions r.num_slots r.cur (space r) ≡ positions n c (k + space r)
  positions-space h =
      ap (λ m. positions n c k ++ positions m r.cur (space r)) size
      ∙ ap (λ i. positions n c k ++ positions n i (space r)) at
      ∙ sym (positions-append n c k (space r) h)

  tail-mod : IsRing r → r.tail ≡ (c + (k + space r)) % n
  tail-mod h =
      let sum : c + k + space r ≡ c + (k + space r) = omega arith in
      sym (space-mod r h)
      ∙ ap (λ m. (r.cur + space r) % m) size
      ∙ ap (λ i. (i + space r) % n) at
      ∙ mod-add-mod (c + k) n (space r)
      ∙ ap (λ m. m % n) sum

module _ (nm : Netmap) (laws : IsNetmap nm) (no_p2pmem : Bool) (pm : Pagemap) (base : ℕ)
    (netmap_buf : ℕ → ℕ → ℕ) (phys : ℕ → ℕ)
    (known : (virt : ℕ) → phy_addr pm virt ≡ some (phys virt)) where
  of_ring-seen :
      (j ri n : ℕ) (slot : ℕ → Slot) (is : List ℕ)
      → of_ring j (seen nm laws no_p2pmem pm base netmap_buf phys known ri n slot is)
        ≡ (if ri == j then is else [])
  of_ring-seen j ri n slot [] = ground arith
  of_ring-seen j ri n slot (i ∷ is) = elim (Bool-cases (ri == j)) [
    | inl here ↦ rw (here, of_ring-seen j ri n slot is, here) refl
    | inr there ↦ rw (there, of_ring-seen j ri n slot is, there) refl
  ]

  -- What is pending in `left` rings from `ri` on has the slots of each of them in their order.
  of_ring-all_pending :
      (left ri j : ℕ) (rings : Rings)
      → of_ring j (all_pending nm laws no_p2pmem pm base netmap_buf phys known left ri rings) ≡ (
          if leb ri j && ltb j (ri + left)
          then positions (rings j).num_slots (rings j).cur (space (rings j))
          else [])
  of_ring-all_pending zero ri j rings = ground arith
  of_ring-all_pending (suc left) ri j rings =
      let r = rings ri in
      let later = all_pending nm laws no_p2pmem pm base netmap_buf phys known left (ri + 1) rings in
      of_ring-append j
        (seen nm laws no_p2pmem pm base netmap_buf phys known ri r.num_slots r.slot
          (positions r.num_slots r.cur (space r)))
        later
      ∙ rw (of_ring-seen, of_ring-all_pending left (ri + 1) j rings)
          (elim (Bool-cases (ri == j)) [
            | inl here ↦
                let behind : (leb (ri + 1) ri && ltb ri (ri + 1 + left)) ≡ false = ground arith in
                let within : (leb ri ri && ltb ri (ri + suc left)) ≡ true = ground arith in
                rw (sym (==→eq ri j here), ==_self ri, behind, within) (append-nil _)
            | inr there ↦
                let test : (leb (ri + 1) j && ltb j (ri + 1 + left))
                    ≡ (leb ri j && ltb j (ri + suc left)) =
                  ground arith in
                rw (there, test) refl
          ])

-- The slots of ring `j` that were printed are consecutive: they begin with the slot at which the
-- ring was at first, each is followed by the next one of the ring, and the ring is now at the slot
-- behind the last of them.
pub record IsConsecutive (start : Rings) (shown : List Shown) (rings : Rings) (j : ℕ) : Type 0 where
  pub k : ℕ
  pub slots : of_ring j shown ≡ positions (start j).num_slots (start j).cur k
  pub cur : (rings j).cur ≡ ((start j).cur + k) % (start j).num_slots
  pub num_slots : (rings j).num_slots ≡ (start j).num_slots

module _ (o : Outside) (kernel : IsKernel o) (laws : IsNetmap o.netmap) (no_p2pmem : Bool)
    (phys : ℕ → ℕ) (known : (virt : ℕ) → phy_addr o.pagemap virt ≡ some (phys virt)) where
  one_pass :
      (start : Rings) (t : ℕ) (shown : List Shown) (rings : Rings) (j : ℕ)
      → o.first_rx_ring ≤ j
      → j ≤ o.last_rx_ring
      → AllValid start
      → AllValid rings
      → IsConsecutive start shown rings j
      → IsConsecutive start
          (shown ++ printed o kernel laws no_p2pmem phys known t rings)
          (left_by o kernel laws no_p2pmem phys known t rings)
          j
  one_pass start t shown rings j low high valid₀ valid h =
      let inside : (leb o.first_rx_ring j && ltb j (o.first_rx_ring + rx_rings o)) ≡ true =
        ground arith in
      let now = polled o t rings j in
      let n = (start j).num_slots in
      let same_n : now.num_slots ≡ n = polled_num_slots o kernel t rings j ∙ h.num_slots in
      let same_cur : now.cur ≡ ((start j).cur + h.k) % n = polled_cur o kernel t rings j ∙ h.cur in
      record {
        k = h.k + space now;
        slots =
            of_ring-append j shown _
            ∙ rw
                (
                  of_ring-all_pending o.netmap laws no_p2pmem o.pagemap o.buf o.netmap_buf phys
                      known (rx_rings o) o.first_rx_ring j (polled o t rings),
                  inside,
                  h.slots,
                )
                (positions-space now n (start j).cur h.k same_n same_cur (valid₀ j).cur_in);
        cur = rw inside (
            tail-mod now n (start j).cur h.k same_n same_cur
              (polled-AllValid o kernel t rings valid j));
        num_slots = rw inside same_n;
      }

  -- From valid rings that are no larger than the fuel, with a netmap that does what is documented and
  -- memory that has physical addresses: in every number of passes the loop of recv-to-pram neither
  -- runs out of fuel nor leaves by `exit`, and ends only because NIOCRXSYNC failed; and the slots that
  -- it has printed of each receive ring are consecutive slots of the ring, from the one at which the
  -- ring was at first: no packet is skipped, printed twice or out of order, across all passes.
  pub serve-IsConsecutive :
      (fuel left : ℕ) (rings : Rings)
      → AllValid rings
      → ((j : ℕ) → (rings j).num_slots ≤ fuel)
      → Found o kernel laws no_p2pmem phys known
          (λ shown rings'.
            (j : ℕ) → o.first_rx_ring ≤ j → j ≤ o.last_rx_ring → IsConsecutive rings shown rings' j)
          (serve o no_p2pmem fuel left 0 [] rings)
  serve-IsConsecutive fuel left rings valid small =
      serve-Found o kernel laws no_p2pmem phys known _
        (λ t shown rings' valid' p j low high.
          one_pass rings t shown rings' j low high valid valid' (p j low high))
        fuel left 0 [] rings valid small
        (λ j low high. record {
          k = 0;
          slots = refl;
          cur =
              sym (mod-eq_of_lt (valid j).cur_in) ∙ ap (λ m. m % (rings j).num_slots) (omega arith);
          num_slots = refl;
        })
