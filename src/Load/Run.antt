-- ===== src/Load/Run.antt =====
-- userland-driver/tools/load-and-xmit.c, `main`: a run in which no call fails, and its status.
use nvpkt.Base.{
  ℕ, zero, suc, ◌+◌, ◌≡◌, refl, ap, ◌∙◌, Bool, true, false, List, [], ◌∷◌, ◌++◌, u64, ℤ, pos,
  pos_part, ltb_ℤ, Bool-cases, inl, inr,
}
use nvpkt.Load.{
  nm_opened, nvme_opened, allocated, read, synced, Log, Outside, Body, State, Next, stop, on, note,
  fill_slot, step, sync, one_block, rounds, free_out, opened, main,
}
use nvpkt.Load.Loops.{Ends, rounds-Ends}

-- the blocks that were read, oldest first
unfoldable pub lbas : Log → List ℕ
lbas [] = []
lbas (read lba ∷ l) = lbas l ++ (lba ∷ [])
lbas (_ ∷ l) = lbas l

-- how often the ring was synchronised
unfoldable pub syncs : Log → ℕ
syncs [] = 0
syncs (synced _ _ ∷ l) = syncs l + 1
syncs (_ ∷ l) = syncs l

-- `k` blocks from `slba + n` on, in order
abbrev pub ascending : (slba n k : ℕ) → List ℕ
ascending slba n zero = []
ascending slba n (suc k) = u64 (slba + n) ∷ ascending slba (n + 1) k

abbrev pub repeated : ℕ → List ℕ → List ℕ
repeated zero xs = []
repeated (suc k) xs = xs ++ repeated k xs

-- No read and no synchronisation fails.
pub record Succeeds (o : Outside) : Type 0 where
  pub reads : (l : Log) (lba : ℕ) → ltb_ℤ (o.unvme_read l lba) (pos 0) ≡ false
  pub syncs_well : (st : State) → ltb_ℤ (o.txsync st.log st.ring).0 (pos 0) ≡ false

-- The openings succeed.
pub record Opens (o : Outside) : Type 0 where
  pub port : o.nm_open ≡ true
  pub device : o.unvme_open ≡ true
  pub buffer : o.unvme_alloc ≡ true

-- There is always room in the ring after a synchronisation.
pub record LeavesRoom (o : Outside) : Type 0 where
  pub room : (st : State) → o.netmap.nm_ring_empty (o.txsync st.log st.ring).1 ≡ false

module _ (o : Outside) (body : Body) where
  pub all_opened :
      (p d b : Bool) (st : State)
      → p ≡ true
      → d ≡ true
      → b ≡ true
      → opened o body p d b st
        ≡ free_out o body (
            rounds o body
              (pos_part body.count)
              (pos 0)
              (note o body allocated (note o body nvme_opened (note o body nm_opened st))))
  unfolding opened
  all_opened p d b st hp hd hb = rw (hp, hd, hb) refl

module _ (o : Outside) (body : Body) (good : Succeeds o) (opens : Opens o) where
  abbrev NotNegative : ℤ → State → Type 0
  NotNegative ret _ = ltb_ℤ ret (pos 0) ≡ false

  abbrev IsSuccess : Next → Type 0
  IsSuccess = Ends NotNegative NotNegative

  one_block-IsSuccess : (n : ℕ) (st : State) → IsSuccess (one_block o body n st)
  unfolding one_block sync
  one_block-IsSuccess n st =
      let lba = u64 (body.slba + n) in
      let st₁ = step o body (fill_slot o body (note o body (read lba) st)) in
      elim (Bool-cases (o.netmap.nm_ring_empty st.ring)) [
        | inl full ↦ rw (good.reads, full) (good.reads st.log lba)
        | inr room ↦ rw (good.reads, room, good.syncs_well st₁) (good.syncs_well st₁)
      ]

  free_out-IsSuccess :
      (next : Next) → IsSuccess next → ltb_ℤ (free_out o body next).0 (pos 0) ≡ false
  free_out-IsSuccess (stop ret st) h = h
  free_out-IsSuccess (on ret st) h = h

  -- If the openings succeed and no read and no NIOCTXSYNC fails, main of load-and-xmit.c returns no
  -- error, also when it stops early because the ring is full.
  pub main-IsSuccess : (st : State) → ltb_ℤ (main o body st).0 (pos 0) ≡ false
  unfolding main
  main-IsSuccess st =
      ap (λ (r : ℤ × State). ltb_ℤ r.0 (pos 0))
        (all_opened o body o.nm_open o.unvme_open o.unvme_alloc st opens.port opens.device
          opens.buffer)
      ∙ free_out-IsSuccess _ (
          rounds-Ends o body NotNegative NotNegative (λ n _ st _. one_block-IsSuccess n st)
            (pos_part body.count) (pos 0) _ refl)
