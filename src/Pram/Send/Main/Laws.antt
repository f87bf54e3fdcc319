-- ===== src/Pram/Send/Main/Laws.antt =====
-- userland-driver/tools/xmit-from-pram.c: the whole of `main`, composed of its parts.
use nvpkt.Base.{
  ℕ, ◌+◌, ◌-◌, ◌^◌, ◌≤◌, ◌<◌, ◌≡◌, refl, sym, ap, ◌∙◌, subst, List, Bool, Option, none, some, true,
  false, [], ◌∷◌, pos, pos_part, ltb_ℤ, arith,
}
use nvpkt.Args.{Text}
use nvpkt.Packet.{Buffer, test_addresses, build_frame}
use nvpkt.Packet.Frame.{test_addresses-IsBytes, parse, parse-build_frame}
use nvpkt.Pram.Calls.{nm_opened, opened, mapped, nm_closed, Log, held}
use nvpkt.Pram.Phys.{phy_addr}
use nvpkt.Pram.Send.{Sent}
use nvpkt.Netmap.{IsRing, IsNetmap}
use nvpkt.Pram.Send.Handed.{KeepsRing, IsCarried, send_loop-IsCarried}
use nvpkt.Pram.Send.Loop.{Reason, send_loop_lem}
use nvpkt.Pram.Send.Main.{
  Settings, parse_args, Outside, End, failed, exited, sent, loop_end, send_from, open_all, run,
  main,
}

module _ (o : Outside) (s : Settings) where
  abbrev pub Ended : Sent → ℕ → Type 0
  Ended end paddr = Reason o.netmap s.pktlen paddr o.txsync s.count s.batch end

  -- The program is over: the port is not held, unless the program has left by `exit`; and the loop
  -- has ended for one of its three reasons.
  pub data IsOver : End → Type 0 where
    failed_over : (log : Log) → held log ≡ some false → IsOver (failed log)
    exited_over : (log : Log) → held log ≡ some true → IsOver (exited log)
    sent_over :
        (log : Log) (buf : Buffer) (end : Sent) (paddr : ℕ)
        → held log ≡ some false
        → Ended end paddr
        → IsOver (sent log buf end)

  abbrev pub enough : ℕ
  enough = pos_part s.count + pos_part s.batch

  send_from-IsOver :
      (paddr : Option ℕ)
      → 0 < pos_part s.batch
      → enough ≤ 2 ^ 31
      → IsOver (send_from o enough s paddr)
  unfolding held
  send_from-IsOver none some_batch no_wrap = exited_over _ refl
  send_from-IsOver (some paddr) some_batch no_wrap =
      let (end, e, _, _, reason) =
        send_loop_lem o.netmap s.pktlen paddr o.txsync s.count s.batch o.ret o.ring some_batch
          no_wrap in
      subst IsOver (sym (ap (loop_end o s) e)) (sent_over _ _ end paddr refl reason)

  open_all-IsOver :
      (nm_open no_fd mmap : Bool)
      → 0 < pos_part s.batch
      → enough ≤ 2 ^ 31
      → IsOver (open_all o enough s nm_open no_fd mmap)
  unfolding open_all held
  open_all-IsOver false _ _ some_batch no_wrap = failed_over _ refl
  open_all-IsOver true true _ some_batch no_wrap = failed_over _ refl
  open_all-IsOver true false false some_batch no_wrap = failed_over _ refl
  open_all-IsOver true false true some_batch no_wrap = send_from-IsOver _ some_batch no_wrap

-- For arguments with a batch of at least 1 and a `count + batch` of at most 2^31, and however the
-- openings, the pagemap and the kernel answer, `count + batch` rounds end the program: the port is
-- closed on every return and still held only when `phy_addr` has left by `exit`, no call is out of
-- place, and a loop that was entered ended because `count` is reached, the ring has no slot left,
-- or NIOCTXSYNC failed.
pub main-IsOver :
    (o : Outside) (args : List Text) (s : Settings)
    → parse_args args ≡ some s
    → 0 < pos_part s.batch
    → pos_part s.count + pos_part s.batch ≤ 2 ^ 31
    → IsOver o s (main o (pos_part s.count + pos_part s.batch) args)
unfolding main run
main-IsOver o args s parsed some_batch no_wrap =
    subst (IsOver o s) (sym (ap (run o (enough o s)) parsed))
      (open_all-IsOver o s o.nm_open (ltb_ℤ o.open_fd (pos 0)) o.mmap some_batch no_wrap)

-- For arguments without -n, a batch of at least 1 that is no larger than the ring, a `count +
-- batch` of at most 2^31, and a length from 42 to 2^16 + 13, when every opening succeeds, the
-- memory has a physical address, netmap does what is documented, the ring is valid, and each
-- NIOCTXSYNC leaves it valid and of its size: within `count + batch` rounds the loop of
-- xmit-from-pram ends, and the memory it has sent from holds a UDP frame between the addresses of
-- the tool whose payload is 42 bytes shorter than the length; each NIOCTXSYNC has found in all
-- slots of a batch, those in front of the position of the ring, the physical address of that memory
-- and the length, cut to 16 bits; and the packets counted are those of all these batches, less than
-- `count + batch`, and at least `count` unless the ring was full or NIOCTXSYNC failed.
pub main-sent :
    (o : Outside) (laws : IsNetmap o.netmap) (keeps : KeepsRing o.txsync) (args : List Text)
    (s : Settings) (paddr n : ℕ)
    → parse_args args ≡ some s
    → o.nm_open ≡ true
    → ltb_ℤ o.open_fd (pos 0) ≡ false
    → o.mmap ≡ true
    → phy_addr o.pagemap o.buf ≡ some paddr
    → 0 < pos_part s.batch
    → pos_part s.count + pos_part s.batch ≤ 2 ^ 31
    → s.no_write ≡ false
    → s.pktlen ≡ pos n
    → 42 ≤ n
    → n < 2 ^ 16 + 14
    → IsRing o.ring
    → pos_part s.batch ≤ o.ring.num_slots
    → (buf : Buffer) × (end : Sent) × (main o (pos_part s.count + pos_part s.batch) args
        ≡ sent (nm_closed ∷ mapped ∷ opened ∷ nm_opened ∷ []) buf end)
      × (parse buf
          ≡ some (record {
            addresses = test_addresses;
            sport = 60000;
            dport = 60000;
            payload = n - 42;
          }))
      × IsCarried o.netmap s.pktlen paddr o.txsync s.count s.batch end
      × (end.n < pos_part s.count + pos_part s.batch)
      × Ended o s end paddr
unfolding main run open_all
main-sent o laws keeps args s paddr n parsed port fd memory known some_batch no_wrap builds len big
      small ring fits =
    let (end, e, _, few, reason) =
      send_loop_lem o.netmap s.pktlen paddr o.txsync s.count s.batch o.ret o.ring some_batch
        no_wrap in
    (
      build_frame test_addresses (pos n) o.memory,
      end,
      ap (run o (enough o s)) parsed ∙ rw (port, fd, memory, known, e, builds, len) refl,
      parse-build_frame test_addresses n o.memory test_addresses-IsBytes big small,
      rw e at (
          send_loop-IsCarried o.netmap s.pktlen paddr o.txsync s.count s.batch laws keeps
            (pos_part s.count + pos_part s.batch) 0 0 o.ret o.ring [] ring fits tt (omega arith)),
      few,
      reason,
    )
