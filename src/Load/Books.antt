-- ===== src/Load/Books.antt =====
-- userland-driver/tools/load-and-xmit.c, `main`: everything that is opened is closed.
use nvpkt.Base.{
  ℕ, ◌+◌, ◌≡◌, refl, Option, none, some, Bool, true, false, [], ◌∷◌, u64, ℤ, pos, pos_part, ltb_ℤ,
  Bool-cases, inl, inr,
}
use nvpkt.Load.{
  Call, nm_opened, nvme_opened, allocated, read, synced, freed, nvme_closed, nm_closed, Log,
  Outside, Body, State, Next, stop, on, note, fill_slot, step, sync, one_block, free_out, opened,
  main,
}
use nvpkt.Load.Loops.{Ends, rounds-Ends}

-- What the program holds, one within the other.
pub data Held : Type 0 where
  nothing port device buffer : Held

-- What it holds after a call; `none` for a call that is out of place.
abbrev pub after : Held → Call → Option Held
after nothing nm_opened = some port
after port nvme_opened = some device
after port nm_closed = some nothing
after device allocated = some buffer
after device nvme_closed = some port
after buffer (read _) = some buffer
after buffer (synced _ _) = some buffer
after buffer freed = some device
after _ _ = none

unfoldable pub held : Log → Option Held
held [] = some nothing
held (c ∷ l) = elim (held l) [ none ↦ none | some h ↦ after h c ]

module _ (o : Outside) (body : Body) where
  abbrev WithBuffer : ℤ → State → Type 0
  WithBuffer _ st = held (st.log) ≡ some buffer

  abbrev HoldsBuffer : Next → Type 0
  HoldsBuffer = Ends WithBuffer WithBuffer

  sync-HoldsBuffer : (st : State) → held (st.log) ≡ some buffer → HoldsBuffer (sync o body st)
  unfolding sync held
  sync-HoldsBuffer st h = elim (Bool-cases (ltb_ℤ (o.txsync st.log st.ring).0 (pos 0))) [
    | inl failed ↦ rw (failed, h) refl
    | inr good ↦ rw (good, h) refl
  ]

  pub fill_slot_log : (st : State) → (fill_slot o body st).log ≡ st.log
  unfolding fill_slot
  fill_slot_log st = elim (Bool-cases body.use_build_pkt) [
    | inl build ↦ rw build refl
    | inr plain ↦ rw plain refl
  ]

  one_block-HoldsBuffer :
      (n : ℕ) (st : State) → held (st.log) ≡ some buffer → HoldsBuffer (one_block o body n st)
  unfolding one_block held
  one_block-HoldsBuffer n st h =
      let lba = u64 (body.slba + n) in
      let st' = note o body (read lba) st in
      let h' : held (st'.log) ≡ some buffer = rw h refl in
      elim (Bool-cases (ltb_ℤ (o.unvme_read st.log lba) (pos 0))) [
        | inl failed ↦ rw failed h'
        | inr good ↦ elim (Bool-cases (o.netmap.nm_ring_empty st.ring)) [
          | inl full ↦ rw (good, full) h'
          | inr room ↦
              rw (good, room)
                (sync-HoldsBuffer (step o body (fill_slot o body st')) (rw (fill_slot_log st') h'))
        ]
      ]

  free_out-Released :
      (next : Next) → HoldsBuffer next → held ((free_out o body next).1.log) ≡ some nothing
  unfolding held
  free_out-Released (stop ret st) h = rw h refl
  free_out-Released (on ret st) h = rw h refl

  opened-Released :
      (p d b : Bool) (st : State)
      → held (st.log) ≡ some nothing
      → held ((opened o body p d b st).1.log) ≡ some nothing
  unfolding opened held
  opened-Released false _ _ st h = h
  opened-Released true false _ st h = rw h refl
  opened-Released true true false st h = rw h refl
  opened-Released true true true st h = free_out-Released _ (
      rounds-Ends o body WithBuffer WithBuffer (λ n _ st. one_block-HoldsBuffer n st)
        (pos_part body.count) (pos 0) _ (rw h refl))

  -- However the calls of main of load-and-xmit.c turn out, each is in its place (the buffer is read
  -- into and the ring synchronised only while the port, the device and the buffer are held), and at
  -- the end the program holds nothing, if it held nothing before.
  pub main-Released :
      (st : State) → held (st.log) ≡ some nothing → held ((main o body st).1.log) ≡ some nothing
  unfolding main
  main-Released st h = opened-Released o.nm_open o.unvme_open o.unvme_alloc st h
