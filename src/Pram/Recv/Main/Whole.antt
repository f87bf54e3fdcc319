-- ===== src/Pram/Recv/Main/Whole.antt =====
-- userland-driver/tools/recv-to-pram.c: the whole of `main` in p2pmem mode, composed of its parts.
use nvpkt.Base.{
  ℕ, zero, suc, ◌+◌, ◌-◌, ◌^◌, ◌<◌, ◌≤◌, ◌≡◌, refl, sym, ap, ◌∙◌, subst, some, true, false,
  Bool-cases, inl, inr, List, [], ◌==◌, leb, ltb, ◌&&◌, if◌then◌else◌, ltb_ℤ, pos, arith, ==→eq,
  u32,
}
use nvpkt.Args.{Text}
use nvpkt.Netmap.{IsNetmap}
use nvpkt.Pram.Phys.{phy_addr}
use nvpkt.Pram.Slots.{nmslot_to_buf}
use nvpkt.Pram.Recv.{Rings, set_ring, end_of_ring, flush_from, flush}
use nvpkt.Pram.Recv.Init.{placed_ring, init_nm_rx_ring_for_phy_lem}
use nvpkt.Pram.Recv.Main.{Settings, Outside, parse_args, open_all, run, main, serve}
use nvpkt.Pram.Recv.Main.Loop.{AllValid, Keeps, Keeps-IsRing, IsKernel, Found}
use nvpkt.Pram.Recv.Main.Order.{IsConsecutive, serve-IsConsecutive}
use nvpkt.Pram.Recv.Main.Own.{AllPlaced, IsOwn, serve-IsOwn}

-- What the flush leaves of valid rings.
record IsFlushed (before after : Rings) : Type 0 where
  valid : AllValid after
  num_slots : (j : ℕ) → (after j).num_slots ≡ (before j).num_slots
  ptr : (j i : ℕ) → ((after j).slot i).ptr ≡ ((before j).slot i).ptr

abbrev at_end : Rings → ℕ → Rings
at_end rings ri = set_ring rings ri (end_of_ring (rings ri))

at_end-IsFlushed :
    (rings : Rings) (ri : ℕ)
    → AllValid rings
    → ((j : ℕ) → (rings j).num_slots < 2 ^ 32)
    → IsFlushed rings (at_end rings ri)
at_end-IsFlushed rings ri valid small = record {
  valid = λ j. elim (Bool-cases (j == ri)) [
    | inl here ↦ rw here (record {
      cur_in = last (rings ri).num_slots (rings ri).cur (valid ri).cur_in (small ri);
      tail_in = (valid ri).tail_in;
      together = refl;
    })
    | inr there ↦ rw there (valid j)
  ];
  num_slots = λ j. elim (Bool-cases (j == ri)) [
    | inl here ↦ rw here (ap (λ k. (rings k).num_slots) (sym (==→eq j ri here)))
    | inr there ↦ rw there refl
  ];
  ptr = λ j i. elim (Bool-cases (j == ri)) [
    | inl here ↦ rw here (ap (λ k. ((rings k).slot i).ptr) (sym (==→eq j ri here)))
    | inr there ↦ rw there refl
  ];
}
  where
    last : (n cur : ℕ) → cur < n → n < 2 ^ 32 → u32 (n + 2 ^ 32 - 1) < n
    last n cur h small = ground arith

flush_from-IsFlushed :
    (rxsync : Rings → Rings)
    → Keeps rxsync
    → (left ri : ℕ) (rings : Rings) → AllValid rings
    → ((j : ℕ) → (rings j).num_slots < 2 ^ 32)
    → IsFlushed rings (flush_from rxsync left ri rings)
unfolding flush_from
flush_from-IsFlushed rxsync keeps zero ri rings valid small = record {
  valid = valid;
  num_slots = λ j. refl;
  ptr = λ j i. refl;
}
flush_from-IsFlushed rxsync keeps (suc left) ri rings valid small =
    let h = at_end-IsFlushed rings ri valid small in
    let size : (j : ℕ) → (rxsync (at_end rings ri) j).num_slots ≡ (rings j).num_slots =
      λ j. keeps.num_slots (at_end rings ri) j ∙ h.num_slots j in
    let h' =
      flush_from-IsFlushed rxsync keeps left (ri + 1) (rxsync (at_end rings ri))
        (Keeps-IsRing rxsync keeps (at_end rings ri) h.valid)
        (λ j. subst (λ n. n < 2 ^ 32) (sym (size j)) (small j)) in
    record {
      valid = h'.valid;
      num_slots = λ j. h'.num_slots j ∙ size j;
      ptr = λ j i. h'.ptr j i ∙ keeps.ptr (at_end rings ri) j i ∙ h.ptr j i;
    }

module _ (o : Outside) (laws : IsNetmap o.netmap) (phys : ℕ → ℕ)
    (known : (virt : ℕ) → phy_addr o.pagemap virt ≡ some (phys virt)) where
  -- the rings behind `init_nm_rx_ring_for_phy`
  abbrev placed : Rings
  placed ri =
      if leb ri o.last_rx_ring
      then placed_ring o.netmap o.pagemap o.buf phys known ri 0 (o.rings ri).num_slots (o.rings ri)
      else o.rings ri

  -- the rings with which the loop begins
  abbrev pub start : Rings
  start = flush o.flush_rxsync o.first_rx_ring o.last_rx_ring placed

  placed_num_slots : (j : ℕ) → (placed j).num_slots ≡ (o.rings j).num_slots
  placed_num_slots j = elim (Bool-cases (leb j o.last_rx_ring)) [
    | inl inside ↦ rw inside refl
    | inr outside ↦ rw outside refl
  ]

  placed-AllValid : AllValid o.rings → AllValid placed
  placed-AllValid valid j = elim (Bool-cases (leb j o.last_rx_ring)) [
    | inl inside ↦ rw inside (record {
      cur_in = (valid j).cur_in;
      tail_in = (valid j).tail_in;
      together = (valid j).together;
    })
    | inr outside ↦ rw outside (valid j)
  ]

  placed-AllPlaced : AllPlaced o phys placed
  placed-AllPlaced j i low inside =
      let mine : leb j o.last_rx_ring ≡ true = ground arith in
      let n : i < (o.rings j).num_slots = subst (λ n. i < n) (placed_num_slots j) inside in
      let slot : (leb 0 i && ltb i (o.rings j).num_slots) ≡ true = ground arith in
      rw (mine, slot) refl

  start-IsFlushed :
      Keeps o.flush_rxsync
      → AllValid o.rings
      → ((j : ℕ) → (o.rings j).num_slots < 2 ^ 32)
      → IsFlushed placed start
  unfolding flush
  start-IsFlushed keeps valid small =
      flush_from-IsFlushed o.flush_rxsync keeps (o.last_rx_ring - o.first_rx_ring) o.first_rx_ring
        placed (placed-AllValid valid)
        (λ j. subst (λ n. n < 2 ^ 32) (sym (placed_num_slots j)) (small j))

  start-AllPlaced : IsFlushed placed start → AllPlaced o phys start
  start-AllPlaced h j i low inside =
      h.ptr j i
      ∙ placed-AllPlaced j i low (subst (λ n. i < n) (h.num_slots j) inside)
      ∙ ap (λ n. phys (nmslot_to_buf o.buf j i n)) (sym (h.num_slots j))

  main-serve :
      (fuel left : ℕ) (args : List Text) (s : Settings)
      → parse_args args ≡ some s
      → s.no_p2pmem ≡ false
      → o.nm_open ≡ true
      → ltb_ℤ o.open_fd (pos 0) ≡ false
      → o.mmap ≡ true
      → main o fuel left args ≡ serve o false fuel left 0 [] start
  unfolding main run open_all
  main-serve fuel left args s parsed pram port fd memory =
      ap (run o fuel left) parsed
      ∙ rw
          (
            pram,
            port,
            fd,
            memory,
            known,
            init_nm_rx_ring_for_phy_lem o.netmap o.pagemap o.buf phys known o.last_rx_ring o.rings,
          )
          refl

  -- For arguments without -n, when every opening succeeds, all memory has physical addresses, the
  -- receive rings are valid, have fewer than 2^32 slots and no more than the fuel, and netmap, its
  -- calls and `poll` do what is documented: in every number of passes `main` of recv-to-pram neither
  -- runs out of fuel nor leaves by `exit`, and ends only because NIOCRXSYNC failed; in every receive
  -- ring each slot has the physical address of its own buffer when the loop begins, the slots keep
  -- these addresses, and with every packet the address that its slot has is printed; and the slots
  -- printed of each ring are consecutive.
  pub main-Found :
      (kernel : IsKernel o) (fuel left : ℕ) (args : List Text) (s : Settings)
      → parse_args args ≡ some s
      → s.no_p2pmem ≡ false
      → o.nm_open ≡ true
      → ltb_ℤ o.open_fd (pos 0) ≡ false
      → o.mmap ≡ true
      → Keeps o.flush_rxsync
      → o.first_rx_ring ≤ o.last_rx_ring
      → AllValid o.rings
      → ((j : ℕ) → (o.rings j).num_slots < 2 ^ 32)
      → ((j : ℕ) → (o.rings j).num_slots ≤ fuel)
      → AllPlaced o phys start
        × Found o kernel laws false phys known (IsOwn start) (main o fuel left args)
        × Found o kernel laws false phys known
            (λ shown rings'.
              (j : ℕ)
              → o.first_rx_ring ≤ j
              → j ≤ o.last_rx_ring
              → IsConsecutive start shown rings' j)
            (main o fuel left args)
  main-Found kernel fuel left args s parsed pram port fd memory keeps order valid small enough =
      let h = start-IsFlushed keeps valid small in
      let e = sym (main-serve fuel left args s parsed pram port fd memory) in
      let enough' : (j : ℕ) → (start j).num_slots ≤ fuel =
        λ j. subst (λ n. n ≤ fuel) (sym (h.num_slots j ∙ placed_num_slots j)) (enough j) in
      (
        start-AllPlaced h,
        subst (Found o kernel laws false phys known (IsOwn start)) e (
            serve-IsOwn o kernel laws phys known fuel left start order (start-AllPlaced h) h.valid
              enough'),
        subst (Found o kernel laws false phys known _) e
            (serve-IsConsecutive o kernel laws false phys known fuel left start h.valid enough'),
      )
