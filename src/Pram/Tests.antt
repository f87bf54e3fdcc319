-- ===== src/Pram/Tests.antt =====
-- The rings, addresses and loops of the two tools at concrete inputs.
use nvpkt.Base.{
  ◌-◌, ◌<◌, ℕ, ◌+◌, ◌*◌, ◌%◌, ◌≡◌, refl, none, some, true, false, List, [], ◌∷◌, ◌==◌,
  if◌then◌else◌, pos, arith,
}
use nvpkt.Netmap.{Ring, Netmap, IsRing, IsNetmap}
use nvpkt.Pram.Send.{Txsync, Sent, unfinished, ended, packet_in, fill, send_loop}
use nvpkt.Pram.Send.Fill.{fill-tail}
use nvpkt.Pram.Send.Loop.{send_loop-none}
use nvpkt.Args.{Text, codes, getopt, cluster}
use nvpkt.Args.Numbers.{strip, digits, unsigned_value, strtol, atoi}
use nvpkt.Packet.{Buffer, test_addresses}
use nvpkt.Packet.Frame.{parse}
use nvpkt.Pram.Calls.{nm_opened, opened, mapped, nm_closed}
use nvpkt.Pram.Send.Main.{sent, Settings, parse_args, set_option, Outside, main}
use nvpkt.Pram.Send.Handed.{KeepsRing, IsCarried}
use nvpkt.Pram.Send.Main.Laws.{IsOver, Ended, main-IsOver, main-sent}
use nvpkt.Pram.Phys.{Pagemap, phy_addr}
use nvpkt.Pram.Recv.{Rings}
use nvpkt.Pram.Recv.Flush.{KeepsPosition}

-- netmap as its documentation has it
abbrev pub netmap : Netmap
netmap = record {
  nm_ring_next = λ r i. if i + 1 == r.num_slots then 0 else i + 1;
  nm_ring_empty = λ r. r.cur == r.tail;
  ns_indirect = 4;
  ns_phy_indirect = 16;
}

pub netmap-IsNetmap : IsNetmap netmap
netmap-IsNetmap = record { next = λ r i. refl; empty = λ r h. refl }

-- Four slots, of which the program owns number 3 and number 0.
abbrev pub ring : Ring
ring = record {
  head = 3;
  cur = 3;
  tail = 1;
  num_slots = 4;
  slot = λ i. record { len = 60 + i; buf_idx = i; ptr = 0; flags = 0 };
}

pub ring-IsRing : IsRing ring
ring-IsRing = record { cur_in = omega arith; tail_in = omega arith; together = refl }

-- A batch of three: the third packet goes into the kernel's slot 1.
fill-tail_example :
    (fill netmap (pos 512) 0x8000 3 ring).slot 1 ≡ packet_in netmap (pos 512) 0x8000 (ring.slot 1)
fill-tail_example =
    fill-tail netmap netmap-IsNetmap (pos 512) 0x8000 3 ring ring-IsRing (omega arith) (omega arith)

-- a kernel that sends everything at once
abbrev sends : Txsync
sends round r = (pos 0, ring)

abbrev twice : Ring
twice = fill netmap (pos 512) 0x8000 2 ring

-- Three packets in batches of two: four are sent.
send_loop_run :
    send_loop netmap (pos 512) 0x8000 sends (pos 3) (pos 2) 5 0 0 (pos 0) ring []
    ≡ ended (record { ret = pos 0; n = 4; ring = ring; synced = twice ∷ twice ∷ [] })
unfolding send_loop
send_loop_run = refl

send_loop-none_example :
    send_loop netmap (pos 512) 0x8000 sends (pos 3) (pos 0) 1000 0 0 (pos 0) ring [] ≡ unfinished
send_loop-none_example =
    send_loop-none netmap (pos 512) 0x8000 sends (pos 3) (pos 0) 1000 0 (pos 0) ring [] refl
      (omega arith) refl (λ i r. refl) (λ i r. refl)

-- Every page is in frame 5.
abbrev pub pagemap : Pagemap
pagemap = record {
  pagesize = 4096;
  open_fd = pos 3;
  lseek = λ _. pos 0;
  read = λ _. (pos 8, 2 * 36028797018963968 + 5);
}

abbrev pub phys : ℕ → ℕ
phys virt = 5 * 4096 + virt % 4096

pub phys_known : (virt : ℕ) → phy_addr pagemap virt ≡ some (phys virt)
unfolding phy_addr
phys_known virt = ground arith

abbrev pub rings : Rings
rings _ = ring

abbrev pub base : ℕ
base = 0x7f0000000000

same_rings-KeepsPosition : KeepsPosition (λ rs. rs)
same_rings-KeepsPosition = record { cur = λ rs i. refl; num_slots = λ rs i. refl }

-- `-c 3 -b 2 -l 100`
abbrev args : List Text
args = codes "-c" ∷ codes "3" ∷ codes "-b" ∷ codes "2" ∷ codes "-l" ∷ codes "100" ∷ []

abbrev settings : Settings
settings = record {
  nm_name = none;
  count = pos 3;
  usleep = pos 0;
  pktlen = pos 100;
  no_write = false;
  batch = pos 2;
}

args_parsed : parse_args args ≡ some settings
unfolding parse_args set_option getopt cluster atoi strtol strip unsigned_value digits
args_parsed = refl

-- a kernel that gives back all slots but the one behind the position
abbrev gives_back : Txsync
gives_back round r = (pos 0, record r { tail = if r.cur == 0 then r.num_slots - 1 else r.cur - 1 })

gives_back-KeepsRing : KeepsRing gives_back
gives_back-KeepsRing = record {
  ring = λ i r h. record {
    cur_in = h.cur_in;
    tail_in = ground (arith, h.cur_in);
    together = h.together;
  };
  size = λ i r. refl;
}

abbrev outside : Outside
outside = record {
  nm_open = true;
  open_fd = pos 4;
  mmap = true;
  buf = 0x7f0000001234;
  memory = λ i. 0;
  pagemap = pagemap;
  netmap = netmap;
  ring = ring;
  txsync = gives_back;
  ret = pos 0;
}

main-IsOver_example : IsOver outside settings (main outside 5 args)
main-IsOver_example = main-IsOver outside args settings args_parsed (omega arith) (omega arith)

main-sent_example :
    (buf : Buffer) × (end : Sent) × (main outside 5 args
      ≡ sent (nm_closed ∷ mapped ∷ opened ∷ nm_opened ∷ []) buf end)
    × (parse buf
        ≡ some (record { addresses = test_addresses; sport = 60000; dport = 60000; payload = 58 }))
    × IsCarried netmap (pos 100) 0x5234 gives_back (pos 3) (pos 2) end
    × (end.n < 5)
    × Ended outside settings end 0x5234
main-sent_example =
    main-sent outside netmap-IsNetmap gives_back-KeepsRing args settings 0x5234 100 args_parsed refl
      refl refl (phys_known 0x7f0000001234) (omega arith) (omega arith) refl refl (omega arith)
      (omega arith) ring-IsRing (omega arith)
