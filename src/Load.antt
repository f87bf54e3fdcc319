-- ===== src/Load.antt =====
-- userland-driver/tools/load-and-xmit.c, `main` behind the parsing of its arguments: blocks are read
-- from an NVMe device and put into a transmit ring, one by one.
pub mod Loops
pub mod Books
pub mod Run
pub mod Reads
pub mod Sent
pub mod Wire
pub mod Args
mod Tests
use nvpkt.Base.{
  ℕ, zero, suc, ◌+◌, ◌^◌, Bool, true, false, List, [], ◌∷◌, ◌==◌, if◌then◌else◌, u64, ℤ, pos,
  negsuc, pos_part, ltb_ℤ,
}
use nvpkt.Netmap.{Slot, Ring, Netmap, set_slot}
use nvpkt.Packet.{Buffer, test_addresses, build_frame}

-- The calls of the two libraries; a call that did not give what it was asked for is not an opening.
pub data Call : Type 0 where
  nm_opened nvme_opened allocated : Call
  read : (lba : ℕ) → Call  -- `unvme_read` of one block into the buffer
  -- NIOCTXSYNC, with the ring and the buffers that the kernel finds
  synced : Ring → (ℕ → Buffer) → Call
  freed nvme_closed nm_closed : Call

-- newest first
abbrev pub Log : Type 0
Log = List Call

-- What stands outside: netmap, whether the openings succeed, the address of the buffer, and the
-- answers of the calls in the loop.
pub record Outside : Type 0 where
  pub netmap : Netmap
  pub nm_open : Bool
  pub unvme_open : Bool
  pub unvme_alloc : Bool
  pub buf : ℕ
  pub unvme_read : Log → ℕ → ℤ
  pub txsync : Log → Ring → ℤ × Ring

-- `struct body`, the fields that the loop uses, and `use_build_pkt`
pub record Body : Type 0 where
  pub nblocks : ℤ
  pub slba : ℕ
  pub count : ℤ
  pub use_build_pkt : Bool

-- The transmit ring, the buffers of netmap by `buf_idx`, and the calls.
pub record State : Type 0 where
  pub ring : Ring
  pub bufs : ℕ → Buffer
  pub log : Log

-- `goto free_out`, or on to the next round; with `ret`
pub data Next : Type 0 where
  stop on : ℤ → State → Next

module _ (o : Outside) (body : Body) where
  abbrev pub note : Call → State → State
  note c st = record st { log = c ∷ st.log }

  -- the slot at the ring's position, and what `build_pkt` writes
  unfoldable pub fill_slot : State → State
  fill_slot st =
      let r = st.ring in
      let s = record (r.slot r.cur) { len = 1024 } in
      if body.use_build_pkt
      then record st {
        ring = set_slot r r.cur s;
        bufs = λ b.
            if b == s.buf_idx then build_frame test_addresses (pos 1024) (st.bufs b) else st.bufs b;
      }
      else record st {
        ring = set_slot r r.cur (record s { ptr = o.buf; flags = o.netmap.ns_indirect });
      }

  -- `txring->head = txring->cur = nm_ring_next(txring, cur)`
  abbrev pub step : State → State
  step st =
      let cur = o.netmap.nm_ring_next st.ring st.ring.cur in
      record st { ring = record (st.ring) { cur = cur; head = cur } }

  -- from the ioctl on
  unfoldable pub sync : State → Next
  sync st =
      let (ret, ring) = o.txsync st.log st.ring in
      let st' = note (synced st.ring st.bufs) (record st { ring = ring }) in
      if ltb_ℤ ret (pos 0) then stop ret st' else on ret st'

  -- the body of the two loops
  unfoldable pub one_block : ℕ → State → Next
  unfolding fill_slot sync
  one_block n st =
      let lba = u64 (body.slba + n) in
      let ret = o.unvme_read st.log lba in
      let st' = note (read lba) st in
      if ltb_ℤ ret (pos 0)
      then stop ret st'
      else if o.netmap.nm_ring_empty st'.ring
      then stop ret st'
      else sync (step (fill_slot st'))

  -- a round that did not jump is followed by the rest
  abbrev pub and_then : Next → (ℤ → State → Next) → Next
  and_then (stop ret st) rest = stop ret st
  and_then (on ret st) rest = rest ret st

  -- the inner loop from `n` on, with its rounds left
  unfoldable pub blocks : (left n : ℕ) → ℤ → State → Next
  blocks zero n ret st = on ret st
  blocks (suc left) n ret st = and_then (one_block n st) (blocks left (n + 1))

  -- the outer loop, with its rounds left
  unfoldable pub rounds : ℕ → ℤ → State → Next
  rounds zero ret st = on ret st
  rounds (suc left) ret st = and_then (blocks (pos_part body.nblocks) 0 ret st) (rounds left)

  abbrev pub free_out : Next → ℤ × State
  free_out (stop ret st) = (ret, note nm_closed (note nvme_closed (note freed st)))
  free_out (on ret st) = (ret, note nm_closed (note nvme_closed (note freed st)))

  -- the openings, as they turn out, and all that follows
  unfoldable pub opened : (nm_open unvme_open unvme_alloc : Bool) → State → ℤ × State
  opened false _ _ st = (negsuc 0, st)
  opened true false _ st = (negsuc 0, note nm_closed (note nm_opened st))
  opened true true false st =
      (negsuc 0, note nm_closed (note nvme_closed (note nvme_opened (note nm_opened st))))
  opened true true true st =
      free_out (
        rounds (pos_part body.count) (pos 0)
          (note allocated (note nvme_opened (note nm_opened st))))

  unfoldable pub main : State → ℤ × State
  unfolding opened
  main = opened o.nm_open o.unvme_open o.unvme_alloc
