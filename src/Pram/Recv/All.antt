-- ===== src/Pram/Recv/All.antt =====
-- userland-driver/tools/recv-to-pram.c: emptying one receive ring after another.
use mathlib.Core.Path.{fun_ext}
use nvpkt.Base.{
  ℕ, zero, suc, ◌+◌, ◌<◌, ◌≤◌, ◌≡◌, refl, ap, some, Bool, true, false, Bool-cases, inl, inr, ==→eq,
  ==_self, List, [], ◌++◌, ◌==◌, leb, ltb, ◌&&◌, if◌then◌else◌, arith,
}
use nvpkt.Netmap.{Ring, Netmap, IsRing, IsNetmap}
use nvpkt.Pram.Phys.{Pagemap, phy_addr}
use nvpkt.Pram.Recv.{Rings, set_ring, Shown, emptied, drain_rings}
use nvpkt.Pram.Recv.Drain.{pending, caught_up, drain-pending}

module _ (nm : Netmap) (laws : IsNetmap nm) (no_p2pmem : Bool) (pm : Pagemap) (base : ℕ)
    (netmap_buf : ℕ → ℕ → ℕ) (phys : ℕ → ℕ)
    (known : (virt : ℕ) → phy_addr pm virt ≡ some (phys virt)) where
  abbrev owned : ℕ → Ring → List Shown
  owned = pending nm laws no_p2pmem pm base netmap_buf phys known

  -- what the program owns of `left` rings from `ri` on
  abbrev pub all_pending : (left ri : ℕ) → Rings → List Shown
  all_pending zero ri rings = []
  all_pending (suc left) ri rings = owned ri (rings ri) ++ all_pending left (ri + 1) rings

  -- these rings with the program's position at the kernel's
  abbrev pub all_caught_up : (left ri : ℕ) → Rings → Rings
  all_caught_up left ri rings j =
      if leb ri j && ltb j (ri + left)
      then caught_up nm laws no_p2pmem pm base netmap_buf phys known (rings j)
      else rings j

  all_pending-set_ring :
      (left ri k : ℕ) (rings : Rings) (r : Ring)
      → k < ri
      → all_pending left ri (set_ring rings k r) ≡ all_pending left ri rings
  all_pending-set_ring zero ri k rings r h = refl
  all_pending-set_ring (suc left) ri k rings r h =
      let other : (ri == k) ≡ false = ground arith in
      rw (other, all_pending-set_ring left (ri + 1) k rings r (omega arith)) refl

  set_ring-IsRing :
      (rings : Rings) (k : ℕ) (r : Ring)
      → ((j : ℕ) → IsRing (rings j))
      → IsRing r
      → (j : ℕ) → IsRing (set_ring rings k r j)
  set_ring-IsRing rings k r valid h j = elim (Bool-cases (j == k)) [
    | inl here ↦ rw here h
    | inr there ↦ rw there (valid j)
  ]

  set_ring-small :
      (rings : Rings) (k fuel : ℕ) (r : Ring)
      → ((j : ℕ) → (rings j).num_slots ≤ fuel)
      → r.num_slots ≤ fuel
      → (j : ℕ) → (set_ring rings k r j).num_slots ≤ fuel
  set_ring-small rings k fuel r small h j = elim (Bool-cases (j == k)) [
    | inl here ↦ rw here h
    | inr there ↦ rw there (small j)
  ]

  -- ring `ri` is caught up and then the rings behind it
  one_more :
      (left ri j : ℕ) (rings : Rings)
      → all_caught_up left
          (ri + 1)
          (set_ring rings ri (caught_up nm laws no_p2pmem pm base netmap_buf phys known (rings ri)))
          j
        ≡ all_caught_up (suc left) ri rings j
  one_more left ri j rings = elim (Bool-cases (j == ri)) [
    | inl same ↦
        let behind : (leb (ri + 1) ri && ltb ri (ri + 1 + left)) ≡ false = ground arith in
        let within : (leb ri ri && ltb ri (ri + suc left)) ≡ true = ground arith in
        rw (==→eq j ri same, ==_self ri, behind, within) refl
    | inr other ↦
        let test : (leb (ri + 1) j && ltb j (ri + 1 + left)) ≡ (leb ri j && ltb j (ri + suc left)) =
          ground arith in
        rw (other, test) refl
  ]

  -- If all rings are valid and no larger than the fuel, what is printed are the slots that the
  -- program owns, ring by ring, and all these rings are caught up.
  pub drain_rings_lem :
      (fuel left ri : ℕ) (rings : Rings)
      → ((j : ℕ) → IsRing (rings j))
      → ((j : ℕ) → (rings j).num_slots ≤ fuel)
      → drain_rings nm no_p2pmem pm base netmap_buf fuel left ri rings
        ≡ emptied (all_pending left ri rings) (all_caught_up left ri rings)
  unfolding drain_rings
  drain_rings_lem fuel zero ri rings valid small = ap (emptied []) (fun_ext (λ j. ground arith))
  drain_rings_lem fuel (suc left) ri rings valid small =
      let r = rings ri in
      let r' = caught_up nm laws no_p2pmem pm base netmap_buf phys known r in
      let h : IsRing r' = record {
        cur_in = (valid ri).tail_in;
        tail_in = (valid ri).tail_in;
        together = refl;
      } in
      let rings' = set_ring rings ri r' in
      rw
        (
          drain_rings,
          drain-pending nm laws no_p2pmem pm base netmap_buf phys known fuel ri r (valid ri)
              (small ri),
          drain_rings_lem fuel left (ri + 1) rings' (set_ring-IsRing rings ri r' valid h)
              (set_ring-small rings ri fuel r' small (small ri)),
          all_pending-set_ring left (ri + 1) ri rings r' (omega arith),
        )
        (ap (emptied (all_pending (suc left) ri rings)) (fun_ext (λ j. one_more left ri j rings)))
