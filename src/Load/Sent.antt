-- ===== src/Load/Sent.antt =====
-- userland-driver/tools/load-and-xmit.c, `main`: what the slot that is handed over holds.
use nvpkt.Base.{◌≡◌, refl, some, true, false, ==_self, arith}
use nvpkt.Packet.{test_addresses}
use nvpkt.Packet.Frame.{test_addresses-IsBytes, parse, parse-build_frame}
use nvpkt.Load.{Outside, Body, State, fill_slot}

module _ (o : Outside) (body : Body) where
  -- With `-b` the slot has 1024 bytes, and a receiver reads its netmap buffer as a UDP packet between
  -- the addresses of the tool, with a payload of 982 bytes, whatever the block was.
  pub fill_slot-parse :
      (st : State)
      → body.use_build_pkt ≡ true
      → let st' = fill_slot o body st in
        let s = st'.ring.slot st.ring.cur in
        (s.len ≡ 1024)
        × (parse (st'.bufs s.buf_idx)
            ≡ some (record {
              addresses = test_addresses;
              sport = 60000;
              dport = 60000;
              payload = 982;
            }))
  unfolding fill_slot
  fill_slot-parse st build =
      let old = st.bufs (st.ring.slot st.ring.cur).buf_idx in
      rw (build, ==_self st.ring.cur, ==_self (st.ring.slot st.ring.cur).buf_idx)
        (
          refl,
          parse-build_frame test_addresses 1024 old test_addresses-IsBytes (omega arith)
              (omega arith),
        )

  -- Without `-b` the slot has 1024 bytes and points to the buffer that the block was read into, and no
  -- netmap buffer is written.
  pub fill_slot-indirect :
      (st : State)
      → body.use_build_pkt ≡ false
      → let st' = fill_slot o body st in
        let s = st'.ring.slot st.ring.cur in
        (s.len ≡ 1024) × (s.ptr ≡ o.buf) × (s.flags ≡ o.netmap.ns_indirect) × (st'.bufs ≡ st.bufs)
  unfolding fill_slot
  fill_slot-indirect st plain = rw (plain, ==_self st.ring.cur) (refl, refl, refl, refl)
