-- ===== src/Load/Tests.antt =====
-- load-and-xmit.c on a ring of four slots and a device that answers everything.
use nvpkt.Base.{none, false, arith, ◌+◌, ◌≡◌, refl, some, true, [], ◌∷◌, ◌==◌, if◌then◌else◌, pos}
use nvpkt.Args.{codes, getopt, cluster}
use nvpkt.Args.Numbers.{atoi, strtol, strip, unsigned_value, digits}
use nvpkt.Load.Args.{initial, set_option, parse_args, load_and_xmit}
use nvpkt.Load.Args.Print.{command_line, load_and_xmit_lem}
use nvpkt.Netmap.{Ring, IsNetmap}
use nvpkt.Load.{Outside, Body, State, main}
use nvpkt.Load.Books.{held, nothing, main-Released}
use nvpkt.Load.Wire.{AllHandOver, main-AllHandOver}
use nvpkt.Load.Run.{lbas, syncs, Succeeds, Opens, LeavesRoom}

abbrev ring : Ring
ring = record {
  head = 1;
  cur = 1;
  tail = 0;
  num_slots = 4;
  slot = λ i. record { len = 0; buf_idx = 100 + i; ptr = 0; flags = 0 };
}

abbrev outside : Outside
outside = record {
  netmap = record {
    nm_ring_next = λ r i. if i + 1 == r.num_slots then 0 else i + 1;
    nm_ring_empty = λ r. r.cur == r.tail;
    ns_indirect = 4;
    ns_phy_indirect = 16;
  };
  nm_open = true;
  unvme_open = true;
  unvme_alloc = true;
  buf = 0x10000;
  unvme_read = λ _ _. pos 0;
  txsync = λ _ _. (pos 0, ring);
}

outside-Succeeds : Succeeds outside
outside-Succeeds = record { reads = λ l lba. refl; syncs_well = λ st. refl }

outside-Opens : Opens outside
outside-Opens = record { port = refl; device = refl; buffer = refl }

outside-LeavesRoom : LeavesRoom outside
outside-LeavesRoom = record { room = λ st. refl }

abbrev body : Body
body = record { nblocks = pos 2; slba = 7; count = pos 2; use_build_pkt = true }

abbrev start : State
start = record { ring = ring; bufs = λ _ _. 0; log = [] }

main-Released_example : held ((main outside body start).1.log) ≡ some nothing
unfolding held
main-Released_example = main-Released outside body start refl

load_and_xmit_lem_example :
    let log =
      (load_and_xmit outside (command_line (codes "eth0") (codes "6") 7 2 2 0 true) start).1.log in
    (lbas log ≡ 7 ∷ 8 ∷ 7 ∷ 8 ∷ []) × (syncs log ≡ 4)
load_and_xmit_lem_example =
    load_and_xmit_lem outside outside-Succeeds outside-LeavesRoom outside-Opens (codes "eth0")
      (codes "6") 7 2 2 0 true start (omega arith) (omega arith) (omega arith) (omega arith) refl
      refl

-- Base 16 for the block, letters in one argument; then -B, which is refused.
parse_args_run :
    parse_args (codes "-bs0x10" ∷ codes "-c" ∷ codes "3" ∷ [])
    ≡ some (record initial { slba = 16; count = pos 3; use_build_pkt = true })
unfolding parse_args set_option getopt cluster atoi strtol strip unsigned_value digits
parse_args_run = refl

batch_refused : parse_args (codes "-B" ∷ codes "8" ∷ []) ≡ none
unfolding parse_args set_option getopt cluster
batch_refused = refl

outside-IsNetmap : IsNetmap outside.netmap
outside-IsNetmap = record { next = λ r i. refl; empty = λ r h. refl }

-- Block 7 goes out twice, and block 8; half of each packet is what the memory held at first.
main-AllHandOver_example :
    AllHandOver 512
      (λ _ lba _. lba)
      (λ _. 0xee)
      outside
      (record body { use_build_pkt = false })
      ((main outside (record body { use_build_pkt = false }) start).1.log)
main-AllHandOver_example =
    main-AllHandOver 512 (λ _ lba _. lba) (λ _. 0xee) outside
      (record body { use_build_pkt = false }) outside-IsNetmap start refl
