-- ===== src/Pram/Send/Fill.antt =====
-- userland-driver/tools/xmit-from-pram.c: what filling the transmit ring with a batch changes.
use native.Mathlib.Nat.{mod-eq_of_lt}
use nvpkt.Base.{
  ℕ, zero, suc, ◌+◌, ◌<◌, ◌≤◌, ◌%◌, ◌≡◌, refl, sym, ap, ◌∙◌, subst, ltb, ◌==◌, if◌then◌else◌, ℤ,
  lt→ltb, le→ltb, arith,
}
use nvpkt.Netmap.{Ring, Netmap, IsRing, IsNetmap}
use nvpkt.Netmap.Space.{
  ahead, space, following, following_in, ahead-following, ahead-bound, following-mod,
}
use nvpkt.Pram.Send.{packet_in, fill}

module _ (nm : Netmap) (laws : IsNetmap nm) (pktlen : ℤ) (paddr : ℕ) where
  -- one round of the inner loop, the next position given
  abbrev pub filled_at : Ring → ℕ → Ring
  filled_at r cur = record r {
    slot = λ j. if j == r.cur then packet_in nm pktlen paddr (r.slot r.cur) else r.slot j;
    cur = cur;
    head = cur;
  }

  pub fill-suc :
      (left : ℕ) (r : Ring)
      → fill nm pktlen paddr (suc left) r
        ≡ fill nm pktlen paddr left (filled_at r (following r.num_slots r.cur))
  unfolding fill
  fill-suc left r = ap (λ c. fill nm pktlen paddr left (filled_at r c)) (laws.next _ r.cur)

  pub filled_IsRing : (r : Ring) → IsRing r → IsRing (filled_at r (following r.num_slots r.cur))
  filled_IsRing r h = record {
    cur_in = following_in r.num_slots r.cur h.cur_in;
    tail_in = h.tail_in;
    together = refl;
  }

  pub fill_num_slots : (left : ℕ) (r : Ring) → (fill nm pktlen paddr left r).num_slots ≡ r.num_slots
  unfolding fill
  fill_num_slots zero r = refl
  fill_num_slots (suc left) r = fill_num_slots left _

  pub fill-IsRing : (left : ℕ) (r : Ring) → IsRing r → IsRing (fill nm pktlen paddr left r)
  unfolding fill
  fill-IsRing zero r h = h
  fill-IsRing (suc left) r h =
      subst IsRing (sym (fill-suc left r)) (fill-IsRing left _ (filled_IsRing r h))

  -- For a valid ring and a batch of at most its number of slots: the batch fills the slots at the
  -- position and behind it, in the order of the ring, and no other slot changes.
  pub fill_lem :
      (left : ℕ) (r : Ring) (i : ℕ)
      → IsRing r
      → left ≤ r.num_slots
      → i < r.num_slots
      → (fill nm pktlen paddr left r).slot i ≡ (
          if ltb (ahead r.num_slots r.cur i) left
          then packet_in nm pktlen paddr (r.slot i)
          else r.slot i)
  unfolding fill
  fill_lem zero r i h small inside = ground arith
  fill_lem (suc left) r i h small inside = rw fill-suc (
      fill_lem left (filled_at r (following r.num_slots r.cur)) i (filled_IsRing r h) (omega arith)
        inside
      ∙ rw (ahead-following r.num_slots r.cur i h.cur_in inside) (ground arith))

  -- The position moves by as many slots as the batch has; the kernel's side of the ring stays.
  pub fill_position :
      (left : ℕ) (r : Ring)
      → IsRing r
      → let r' = fill nm pktlen paddr left r in
        (r'.cur ≡ (r.cur + left) % r.num_slots) × (r'.head ≡ r'.cur) × (r'.tail ≡ r.tail)
  unfolding fill
  fill_position zero r h =
      (sym (mod-eq_of_lt h.cur_in) ∙ ap (λ m. m % r.num_slots) (omega arith), h.together, refl)
  fill_position (suc left) r h =
      let (cur, head, tail) =
        fill_position left (filled_at r (following r.num_slots r.cur)) (filled_IsRing r h) in
      rw fill-suc (cur ∙ following-mod r.num_slots r.cur left h.cur_in, head, tail)

  -- A batch larger than the number of slots that the program owns, though not larger than the ring,
  -- overwrites the kernel's slot at the tail of a valid ring.
  pub fill-tail :
      (left : ℕ) (r : Ring)
      → IsRing r
      → space r < left
      → left ≤ r.num_slots
      → (fill nm pktlen paddr left r).slot r.tail ≡ packet_in nm pktlen paddr (r.slot r.tail)
  fill-tail left r h over small =
      fill_lem left r r.tail h small h.tail_in ∙ rw (lt→ltb (space r) left over) refl

  -- A batch of at most the slots that the program owns changes no slot of the kernel's.
  pub fill-kernel :
      (left : ℕ) (r : Ring) (i : ℕ)
      → IsRing r
      → left ≤ space r
      → i < r.num_slots
      → space r ≤ ahead r.num_slots r.cur i
      → (fill nm pktlen paddr left r).slot i ≡ r.slot i
  fill-kernel left r i h fits inside kernel =
      let small : left ≤ r.num_slots =
        omega (arith, fits, ahead-bound r.num_slots r.cur r.tail h.cur_in h.tail_in) in
      fill_lem left r i h small inside
      ∙ rw (le→ltb (ahead r.num_slots r.cur i) left (omega (arith, fits, kernel))) refl
