-- ===== src/Load/Reads.antt =====
-- userland-driver/tools/load-and-xmit.c, `main`: which blocks are read, in which order, and how many
-- packets go out, when nothing fails.
use mathlib.Core.List.{append_assoc, append-nil}
use nvpkt.Base.{
  ℕ, zero, suc, ◌+◌, ◌*◌, ◌≡◌, refl, sym, ap, subst, ◌∙◌, false, List, [], ◌∷◌, ◌++◌, u64, ℤ, pos,
  pos_part, arith,
}
use nvpkt.Load.{
  nm_opened, nvme_opened, allocated, read, Outside, Body, State, Next, stop, on, note, fill_slot,
  step, sync, one_block, and_then, blocks, rounds, free_out, main,
}
use nvpkt.Load.Books.{fill_slot_log}
use nvpkt.Load.Run.{lbas, syncs, ascending, repeated, Succeeds, Opens, LeavesRoom, all_opened}

module _ (o : Outside) (body : Body) (good : Succeeds o) (roomy : LeavesRoom o) where
  -- What has been read and how often the ring was synchronised, with room for a packet.
  record Did (read_lbas : List ℕ) (times : ℕ) (st : State) : Type 0 where
    in_order : lbas (st.log) ≡ read_lbas
    often : syncs (st.log) ≡ times
    room : o.netmap.nm_ring_empty st.ring ≡ false

  -- the next state, if the loops go on
  abbrev GoesOn : List ℕ → ℕ → Next → Type 0
  GoesOn ls n (stop ret st) = ⊥
  GoesOn ls n (on ret st) = Did ls n st

  one_block-GoesOn :
      (ls : List ℕ) (k n : ℕ) (st : State)
      → Did ls k st
      → GoesOn (ls ++ (u64 (body.slba + n) ∷ [])) (k + 1) (one_block o body n st)
  unfolding one_block sync lbas syncs
  one_block-GoesOn ls k n st d =
      let lba = u64 (body.slba + n) in
      let st₁ = step o body (fill_slot o body (note o body (read lba) st)) in
      let kept = fill_slot_log o body (note o body (read lba) st) in
      rw (good.reads, d.room, good.syncs_well st₁)
        (record {
          in_order = ap lbas kept ∙ ap (λ l. l ++ (lba ∷ [])) d.in_order;
          often = ap (λ m. m + 1) (ap syncs kept ∙ d.often);
          room = roomy.room st₁;
        })

  and_then-GoesOn :
      (ls ls' : List ℕ) (k k' : ℕ) (next : Next) (rest : ℤ → State → Next)
      → GoesOn ls k next
      → ((ret : ℤ) (st : State) → Did ls k st → GoesOn ls' k' (rest ret st))
      → GoesOn ls' k' (and_then o body next rest)
  and_then-GoesOn ls ls' k k' (stop ret st) rest h f = absurd h
  and_then-GoesOn ls ls' k k' (on ret st) rest h f = f ret st h

  GoesOn-eq :
      {ls ls' : List ℕ} {k k' : ℕ} (next : Next)
      → ls ≡ ls'
      → k ≡ k'
      → GoesOn ls k next
      → GoesOn ls' k' next
  GoesOn-eq {ls} {ls'} {k} {k'} next e e' h =
      subst (λ l. GoesOn l k' next) e (subst (λ m. GoesOn ls m next) e' h)

  blocks-GoesOn :
      (left n : ℕ) (ls : List ℕ) (k : ℕ) (ret : ℤ) (st : State)
      → Did ls k st
      → GoesOn (ls ++ ascending body.slba n left) (k + left) (blocks o body left n ret st)
  unfolding blocks
  blocks-GoesOn zero n ls k ret st d = record {
    in_order = d.in_order ∙ sym (append-nil ls);
    often = omega (arith, d.often);
    room = d.room;
  }
  blocks-GoesOn (suc left) n ls k ret st d =
      and_then-GoesOn _ _ (k + 1) (k + suc left) (one_block o body n st)
        (blocks o body left (n + 1)) (one_block-GoesOn ls k n st d)
        (λ ret' st' d'.
          GoesOn-eq (blocks o body left (n + 1) ret' st')
            (append_assoc ls (u64 (body.slba + n) ∷ []) (ascending body.slba (n + 1) left))
            (omega arith)
            (blocks-GoesOn left (n + 1) (ls ++ (u64 (body.slba + n) ∷ [])) (k + 1) ret' st' d'))

  abbrev one_round : List ℕ
  one_round = ascending body.slba 0 (pos_part body.nblocks)

  rounds-GoesOn :
      (left : ℕ) (ls : List ℕ) (k : ℕ) (ret : ℤ) (st : State)
      → Did ls k st
      → GoesOn
          (ls ++ repeated left one_round)
          (k + left * pos_part body.nblocks)
          (rounds o body left ret st)
  unfolding rounds
  rounds-GoesOn zero ls k ret st d = record {
    in_order = d.in_order ∙ sym (append-nil ls);
    often = omega (arith, d.often);
    room = d.room;
  }
  rounds-GoesOn (suc left) ls k ret st d =
      let m = pos_part body.nblocks in
      and_then-GoesOn _ _ (k + m) (k + suc left * m) (blocks o body m 0 ret st) (rounds o body left)
        (blocks-GoesOn m 0 ls k ret st d)
        (λ ret' st' d'.
          GoesOn-eq (rounds o body left ret' st')
            (append_assoc ls one_round (repeated left one_round)) (omega arith)
            (rounds-GoesOn left (ls ++ one_round) (k + m) ret' st' d'))

  -- the end changes nothing of it
  free_out-Did :
      (ls : List ℕ) (k : ℕ) (next : Next)
      → GoesOn ls k next
      → (lbas ((free_out o body next).1.log) ≡ ls) × (syncs ((free_out o body next).1.log) ≡ k)
  unfolding lbas syncs
  free_out-Did ls k (stop ret st) h = absurd h
  free_out-Did ls k (on ret st) h = (h.in_order, h.often)

  -- If the openings succeed, no read and no NIOCTXSYNC fails, and the ring has room at first and
  -- after each NIOCTXSYNC: `main` of load-and-xmit.c reads the `nblocks` blocks from `slba` on in
  -- order, `count` times over, and synchronises the ring once for each of them.
  pub main_lem :
      (opens : Opens o) (st : State)
      → st.log ≡ []
      → o.netmap.nm_ring_empty st.ring ≡ false
      → (lbas ((main o body st).1.log)
          ≡ repeated (pos_part body.count) (ascending body.slba 0 (pos_part body.nblocks)))
        × (syncs ((main o body st).1.log) ≡ pos_part body.count * pos_part body.nblocks)
  unfolding main lbas syncs
  main_lem opens st fresh room =
      let st' = note o body allocated (note o body nvme_opened (note o body nm_opened st)) in
      let d : Did [] 0 st' = record {
        in_order = ap lbas fresh;
        often = ap syncs fresh;
        room = room;
      } in
      let run = rounds-GoesOn (pos_part body.count) [] 0 (pos 0) st' d in
      let e =
        all_opened o body o.nm_open o.unvme_open o.unvme_alloc st opens.port opens.device
          opens.buffer in
      rw e (
        free_out-Did _ _ (rounds o body (pos_part body.count) (pos 0) st')
          (GoesOn-eq _ refl (omega arith) run))
