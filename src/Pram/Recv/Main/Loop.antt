-- ===== src/Pram/Recv/Main/Loop.antt =====
-- userland-driver/tools/recv-to-pram.c: what a pass of the endless loop does, and what all passes keep.
use nvpkt.Base.{
  ℕ, zero, suc, ◌+◌, ◌-◌, ◌<◌, ◌≤◌, ◌≡◌, refl, sym, ap, ◌∙◌, some, Bool, true, false, Bool-cases,
  inl, inr, ◌⊎◌, List, ◌++◌, leb, ltb, ◌&&◌, ltb_ℤ, ℤ, pos, negsuc,
}
use nvpkt.Netmap.{IsRing, IsNetmap}
use nvpkt.Pram.Calls.{Log}
use nvpkt.Pram.Phys.{phy_addr}
use nvpkt.Pram.Recv.{Rings, Shown}
use nvpkt.Pram.Recv.All.{all_pending, all_caught_up, drain_rings_lem}
use nvpkt.Pram.Recv.Main.{Outside, stops, passes, to_pass, End, stopped, running, pass, serve}

abbrev pub AllValid : Rings → Type 0
AllValid rings = (j : ℕ) → IsRing (rings j)

-- A call in which netmap may fill slots: the program's position, the size of a ring and the address
-- in a slot stay, and the kernel's position is in the ring.
pub record Keeps (call : Rings → Rings) : Type 0 where
  pub cur : (rings : Rings) (j : ℕ) → (call rings j).cur ≡ (rings j).cur
  pub head : (rings : Rings) (j : ℕ) → (call rings j).head ≡ (rings j).head
  pub num_slots : (rings : Rings) (j : ℕ) → (call rings j).num_slots ≡ (rings j).num_slots
  pub ptr : (rings : Rings) (j i : ℕ) → ((call rings j).slot i).ptr ≡ ((rings j).slot i).ptr
  pub tail_in :
      (rings : Rings) → AllValid rings → (j : ℕ) → (call rings j).tail < (rings j).num_slots

-- What is documented of NIOCRXSYNC and of `poll`, which returns -1 for a failure.
pub record IsKernel (o : Outside) : Type 0 where
  pub rxsync : (t : ℕ) → Keeps (λ rings. (o.rxsync t rings).1)
  pub poll : (t : ℕ) → Keeps (λ rings. (o.poll t rings).1)
  pub status : (t : ℕ) (rings : Rings) → ltb_ℤ (o.poll t rings).0 (negsuc 0) ≡ false

pub Keeps-IsRing :
    (call : Rings → Rings) → Keeps call → (rings : Rings) → AllValid rings → AllValid (call rings)
Keeps-IsRing call keeps rings valid j = record {
  cur_in = rw (keeps.cur, keeps.num_slots) (valid j).cur_in;
  tail_in = rw keeps.num_slots (keeps.tail_in rings valid j);
  together = keeps.head rings j ∙ (valid j).together ∙ sym (keeps.cur rings j);
}

module _ (o : Outside) where
  -- the rings as the program finds them behind NIOCRXSYNC and `poll`
  abbrev pub polled : ℕ → Rings → Rings
  polled t rings = (o.poll t (o.rxsync t rings).1).1

  -- how many rings there are
  abbrev pub rx_rings : ℕ
  rx_rings = o.last_rx_ring + 1 - o.first_rx_ring

  module _ (kernel : IsKernel o) where
    pub polled_cur : (t : ℕ) (rings : Rings) (j : ℕ) → (polled t rings j).cur ≡ (rings j).cur
    polled_cur t rings j = (kernel.poll t).cur _ j ∙ (kernel.rxsync t).cur rings j

    pub polled_num_slots :
        (t : ℕ) (rings : Rings) (j : ℕ) → (polled t rings j).num_slots ≡ (rings j).num_slots
    polled_num_slots t rings j = (kernel.poll t).num_slots _ j ∙ (kernel.rxsync t).num_slots rings j

    pub polled_ptr :
        (t : ℕ) (rings : Rings) (j i : ℕ) → ((polled t rings j).slot i).ptr ≡ ((rings j).slot i).ptr
    polled_ptr t rings j i = (kernel.poll t).ptr _ j i ∙ (kernel.rxsync t).ptr rings j i

    pub polled-AllValid : (t : ℕ) (rings : Rings) → AllValid rings → AllValid (polled t rings)
    polled-AllValid t rings valid =
        Keeps-IsRing _ (kernel.poll t) _ (Keeps-IsRing _ (kernel.rxsync t) rings valid)

    module _ (laws : IsNetmap o.netmap) (no_p2pmem : Bool) (phys : ℕ → ℕ)
        (known : (virt : ℕ) → phy_addr o.pagemap virt ≡ some (phys virt)) where
      -- what a pass prints
      abbrev pub printed : ℕ → Rings → List Shown
      printed t rings =
          all_pending o.netmap laws no_p2pmem o.pagemap o.buf o.netmap_buf phys known rx_rings
            o.first_rx_ring (polled t rings)

      -- and what it leaves
      abbrev pub left_by : ℕ → Rings → Rings
      left_by t rings =
          all_caught_up o.netmap laws no_p2pmem o.pagemap o.buf o.netmap_buf phys known rx_rings
            o.first_rx_ring (polled t rings)

      pub left_by-AllValid : (t : ℕ) (rings : Rings) → AllValid rings → AllValid (left_by t rings)
      left_by-AllValid t rings valid j =
          elim (Bool-cases (leb o.first_rx_ring j && ltb j (o.first_rx_ring + rx_rings))) [
            | inl inside ↦ rw inside (record {
              cur_in = (polled-AllValid t rings valid j).tail_in;
              tail_in = (polled-AllValid t rings valid j).tail_in;
              together = refl;
            })
            | inr outside ↦ rw outside (polled-AllValid t rings valid j)
          ]

      pub left_by_num_slots :
          (t : ℕ) (rings : Rings) (j : ℕ) → (left_by t rings j).num_slots ≡ (rings j).num_slots
      left_by_num_slots t rings j =
          elim (Bool-cases (leb o.first_rx_ring j && ltb j (o.first_rx_ring + rx_rings))) [
            | inl inside ↦ rw inside (polled_num_slots t rings j)
            | inr outside ↦ rw outside (polled_num_slots t rings j)
          ]

      -- From valid rings that are no larger than the fuel, a pass either ends the loop because
      -- NIOCRXSYNC failed, or prints all that is pending behind `poll` and leaves all rings caught up.
      pub pass_lem :
          (fuel t : ℕ) (rings : Rings)
          → AllValid rings
          → ((j : ℕ) → (rings j).num_slots ≤ fuel)
          → ((ltb_ℤ (o.rxsync t rings).0 (pos 0) ≡ true)
              × (pass o no_p2pmem fuel t rings ≡ stops (o.rxsync t rings).0 (o.rxsync t rings).1))
            ⊎ (pass o no_p2pmem fuel t rings ≡ passes (printed t rings) (left_by t rings))
      unfolding pass
      pass_lem fuel t rings valid small = elim (Bool-cases (ltb_ℤ (o.rxsync t rings).0 (pos 0))) [
        | inl bad ↦ rw bad (inl (refl, refl))
        | inr good ↦
            rw (good, kernel.status)
              (inr (
                ap to_pass (
                  drain_rings_lem o.netmap laws no_p2pmem o.pagemap o.buf o.netmap_buf phys known
                    fuel rx_rings o.first_rx_ring (polled t rings) (polled-AllValid t rings valid)
                    (λ j. rw polled_num_slots (small j)))))
      ]

      -- The loop goes on or has ended because NIOCRXSYNC failed, with `P` of what has been printed
      -- and of the rings.
      pub data Found (P : List Shown → Rings → Type 0) : End → Type 0 where
        running_found :
            (shown : List Shown) (rings : Rings) → P shown rings → Found P (running shown rings)
        stopped_found :
            (ret : ℤ) (shown : List Shown) (rings : Rings) (log : Log)
            → ltb_ℤ ret (pos 0) ≡ true
            → P shown rings
            → Found P (stopped ret shown log)

      -- What every pass keeps, the loop keeps.
      pub serve-Found :
          (P : List Shown → Rings → Type 0)
          → ((t : ℕ) (shown : List Shown) (rings : Rings)
              → AllValid rings
              → P shown rings
              → P (shown ++ printed t rings) (left_by t rings))
          → (fuel left t : ℕ) (shown : List Shown) (rings : Rings) → AllValid rings
          → ((j : ℕ) → (rings j).num_slots ≤ fuel)
          → P shown rings
          → Found P (serve o no_p2pmem fuel left t shown rings)
      unfolding serve
      serve-Found P step fuel zero t shown rings valid small p = running_found shown rings p
      serve-Found P step fuel (suc left) t shown rings valid small p =
          elim (pass_lem fuel t rings valid small) [
            | inl (bad, e) ↦ rw (serve, e) (stopped_found _ shown rings _ bad p)
            | inr e ↦
                rw (serve, e)
                  (serve-Found P step fuel left (t + 1) (shown ++ printed t rings) (left_by t rings)
                    (left_by-AllValid t rings valid) (λ j. rw left_by_num_slots (small j))
                    (step t shown rings valid p))
          ]
