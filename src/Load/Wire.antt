-- ===== src/Load/Wire.antt =====
-- userland-driver/tools/load-and-xmit.c, `main`: what goes out with each NIOCTXSYNC.
use nvpkt.Base.{
  ℕ, ◌+◌, ◌≡◌, refl, subst, sym, Bool, true, false, some, [], ◌∷◌, ◌==◌, ltb, u64, ltb_ℤ, ℤ, pos,
  pos_part, if◌then◌else◌, Bool-cases, inl, inr,
}
use nvpkt.Netmap.{Slot, Ring, IsNetmap}
use nvpkt.Packet.{Buffer, test_addresses}
use nvpkt.Packet.Frame.{parse}
use nvpkt.Load.{
  read, synced, Log, Outside, Body, State, Next, stop, on, note, fill_slot, step, sync, one_block,
  free_out, opened, main,
}
use nvpkt.Load.Books.{fill_slot_log}
use nvpkt.Load.Loops.{Ends, rounds-Ends}
use nvpkt.Load.Sent.{fill_slot-parse, fill_slot-indirect}

-- the first bytes of `new` in front of the rest of `old`
abbrev pub over : (size : ℕ) → (new old : Buffer) → Buffer
over size new old i = if ltb i size then new i else old i

-- What the allocated memory holds, if only `unvme_read` writes to it: a block is in front of what was
-- there before.
module _ (block_size : ℕ) (block : Log → ℕ → Buffer) (init : Buffer) where
  unfoldable pub memory : Log → Buffer
  memory [] = init
  memory (read lba ∷ l) = over block_size (block l lba) (memory l)
  memory (_ ∷ l) = memory l

  -- The last call was a read, and the memory holds its block in front of what it held at first.
  abbrev pub IsFresh : Log → Type 0
  IsFresh (read lba ∷ l) = (i : ℕ) → memory (read lba ∷ l) i ≡ over block_size (block l lba) init i
  IsFresh _ = ⊥

  module _ (o : Outside) where
    -- what a slot carries: with `-b` the frame of the tool, without it the memory
    abbrev pub Carries : (use_build_pkt : Bool) → Slot → (ℕ → Buffer) → Log → Type 0
    Carries true s bufs l =
        parse (bufs s.buf_idx)
        ≡ some (record { addresses = test_addresses; sport = 60000; dport = 60000; payload = 982 })
    Carries false s bufs l = (s.ptr ≡ o.buf) × (s.flags ≡ o.netmap.ns_indirect) × IsFresh l

    module _ (body : Body) where
      -- The kernel is handed the slot `at` in front of the ring's new position, with 1024 bytes.
      pub record HandsOver (r : Ring) (bufs : ℕ → Buffer) (l : Log) : Type 0 where
        pub at : ℕ
        pub moved : r.cur ≡ (if at + 1 == r.num_slots then 0 else at + 1)
        pub together : r.head ≡ r.cur
        pub len : (r.slot at).len ≡ 1024
        pub carries : Carries body.use_build_pkt (r.slot at) bufs l

      -- with every NIOCTXSYNC
      abbrev pub AllHandOver : Log → Type 0
      AllHandOver [] = Unit
      AllHandOver (synced r bufs ∷ l) = HandsOver r bufs l × AllHandOver l
      AllHandOver (_ ∷ l) = AllHandOver l

      -- between two rounds: behind the block the memory is as it was at first
      record Sent (ret : ℤ) (st : State) : Type 0 where
        all : AllHandOver st.log
        rest : (i : ℕ) → ltb i block_size ≡ false → memory st.log i ≡ init i

      read-IsFresh :
          (lba : ℕ) (l : Log)
          → ((i : ℕ) → ltb i block_size ≡ false → memory l i ≡ init i)
          → IsFresh (read lba ∷ l)
      unfolding memory
      read-IsFresh lba l rest i = elim (Bool-cases (ltb i block_size)) [
        | inl front ↦ rw front refl
        | inr behind ↦ rw behind (rest i behind)
      ]

      fill_slot_cur : (st : State) → (fill_slot o body st).ring.cur ≡ st.ring.cur
      unfolding fill_slot
      fill_slot_cur st = elim (Bool-cases body.use_build_pkt) [
        | inl build ↦ rw build refl
        | inr plain ↦ rw plain refl
      ]

      fill_slot-Carries :
          (st : State) (l : Log)
          → IsFresh l
          → let st' = fill_slot o body st in
            let s = st'.ring.slot st.ring.cur in
            (s.len ≡ 1024) × Carries body.use_build_pkt s st'.bufs l
      fill_slot-Carries st l fresh =
          let st' = fill_slot o body st in
          let s = st'.ring.slot st.ring.cur in
          elim (Bool-cases body.use_build_pkt) [
            | inl build ↦
                let (len, frame) = fill_slot-parse o body st build in
                (len, subst (λ b. Carries b s st'.bufs l) (sym build) frame)
            | inr plain ↦
                let (len, ptr, flags, _) = fill_slot-indirect o body st plain in
                (len, subst (λ b. Carries b s st'.bufs l) (sym plain) (ptr, flags, fresh))
          ]

      fill_slot-HandsOver :
          (docs : IsNetmap o.netmap) (st : State) (l : Log)
          → IsFresh l
          → let st' = step o body (fill_slot o body st) in HandsOver st'.ring st'.bufs l
      fill_slot-HandsOver docs st l fresh =
          let r = (fill_slot o body st).ring in
          let (len, carries) = fill_slot-Carries st l fresh in
          record {
            at = st.ring.cur;
            moved =
                subst
                  (λ i. o.netmap.nm_ring_next r r.cur ≡ (if i + 1 == r.num_slots then 0 else i + 1))
                  (fill_slot_cur st) (docs.next r r.cur);
            together = refl;
            len = len;
            carries = carries;
          }

      sync-Sent :
          (docs : IsNetmap o.netmap) (ret : ℤ) (st : State)
          → HandsOver st.ring st.bufs st.log
          → Sent ret st
          → Ends Sent Sent (sync o body st)
      unfolding sync memory
      sync-Sent docs ret st h s = elim (Bool-cases (ltb_ℤ (o.txsync st.log st.ring).0 (pos 0))) [
        | inl failed ↦ rw failed (record { all = (h, s.all); rest = s.rest })
        | inr good ↦ rw good (record { all = (h, s.all); rest = s.rest })
      ]

      one_block-Sent :
          (docs : IsNetmap o.netmap) (n : ℕ) (ret : ℤ) (st : State)
          → Sent ret st
          → Ends Sent Sent (one_block o body n st)
      unfolding one_block memory
      one_block-Sent docs n ret st s =
          let lba = u64 (body.slba + n) in
          let st' = note o body (read lba) st in
          let fresh = read-IsFresh lba st.log s.rest in
          let s' : Sent ret st' = record {
            all = s.all;
            rest = λ i behind. rw behind (s.rest i behind);
          } in
          elim (Bool-cases (ltb_ℤ (o.unvme_read st.log lba) (pos 0))) [
            | inl failed ↦ rw failed (record { all = s'.all; rest = s'.rest })
            | inr good ↦ elim (Bool-cases (o.netmap.nm_ring_empty st.ring)) [
              | inl full ↦ rw (good, full) (record { all = s'.all; rest = s'.rest })
              | inr room ↦
                  rw (good, room)
                    (sync-Sent docs ret (step o body (fill_slot o body st'))
                      (rw (fill_slot_log o body st') (fill_slot-HandsOver docs st' st'.log fresh))
                      (record {
                        all = rw (fill_slot_log o body st') s'.all;
                        rest = rw (fill_slot_log o body st') s'.rest;
                      }))
            ]
          ]

      free_out-AllHandOver :
          (next : Next) → Ends Sent Sent next → AllHandOver ((free_out o body next).1.log)
      free_out-AllHandOver (stop ret st) s = s.all
      free_out-AllHandOver (on ret st) s = s.all

      opened-AllHandOver :
          (docs : IsNetmap o.netmap) (p d b : Bool) (st : State)
          → st.log ≡ []
          → AllHandOver ((opened o body p d b st).1.log)
      unfolding opened memory
      opened-AllHandOver docs false _ _ st fresh = rw fresh tt
      opened-AllHandOver docs true false _ st fresh = rw fresh tt
      opened-AllHandOver docs true true false st fresh = rw fresh tt
      opened-AllHandOver docs true true true st fresh = free_out-AllHandOver _ (
          rounds-Ends o body Sent Sent (one_block-Sent docs) (pos_part body.count) (pos 0) _
            (record { all = rw fresh tt; rest = λ i behind. rw fresh refl }))

      -- However the calls of main of load-and-xmit.c turn out, with a netmap that does what is
      -- documented: each NIOCTXSYNC finds the ring behind one slot of 1024 bytes that was just
      -- filled; with `-b` a receiver reads its netmap buffer as the UDP packet of the tool; without
      -- it the slot points to the allocated memory, which holds the block that was read just
      -- before, and behind that block what it held when it was allocated.
      pub main-AllHandOver :
          (docs : IsNetmap o.netmap) (st : State)
          → st.log ≡ []
          → AllHandOver ((main o body st).1.log)
      unfolding main
      main-AllHandOver docs st fresh =
          opened-AllHandOver docs o.nm_open o.unvme_open o.unvme_alloc st fresh
