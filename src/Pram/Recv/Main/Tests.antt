-- ===== src/Pram/Recv/Main/Tests.antt =====
-- `main` of userland-driver/tools/recv-to-pram.c with a kernel that hands over one more slot of each
-- ring at each NIOCRXSYNC.
use mathlib.Core.List.{Memᴰ}
use nvpkt.Base.{ℕ, ◌≤◌, ◌≡◌, refl, some, true, false, List, [], ◌∷◌, pos, arith}
use nvpkt.Args.{Text, codes, getopt, cluster}
use nvpkt.Netmap.Space.{following, following_in}
use nvpkt.Pram.Tests.{netmap, netmap-IsNetmap, ring-IsRing, pagemap, phys, phys_known, rings, base}
use nvpkt.Pram.Recv.{Rings, Shown}
use nvpkt.Pram.Recv.Main.{Settings, Outside, set_option, parse_args, passes, pass, serve, main}
use nvpkt.Pram.Recv.Main.Loop.{AllValid, Keeps, IsKernel, polled, Found}
use nvpkt.Pram.Recv.Main.Order.{IsConsecutive, serve-IsConsecutive}
use nvpkt.Pram.Recv.Main.Live.{shown_of, pass-prints}
use nvpkt.Pram.Recv.Main.Own.{AllPlaced, IsOwn}
use nvpkt.Pram.Recv.Main.Whole.{start, main-Found}
use nvpkt.Pram.Recv.Main.Books.{IsReleased, main-IsReleased}

abbrev one_more : Rings → Rings
one_more rings j = record (rings j) { tail = following (rings j).num_slots (rings j).tail }

abbrev outside : Outside
outside = record {
  nm_open = true;
  open_fd = pos 4;
  mmap = true;
  buf = base;
  pagemap = pagemap;
  netmap = netmap;
  netmap_buf = λ ri i. 0;
  first_rx_ring = 0;
  last_rx_ring = 1;
  rings = rings;
  flush_rxsync = λ rs. rs;
  rxsync = λ t rs. (pos 0, one_more rs);
  poll = λ t rs. (pos 1, rs);
}

rings-AllValid : AllValid rings
rings-AllValid j = ring-IsRing

rings_small : (j : ℕ) → (rings j).num_slots ≤ 4
rings_small j = omega arith

same-Keeps : Keeps (λ rs. rs)
same-Keeps = record {
  cur = λ rs j. refl;
  head = λ rs j. refl;
  num_slots = λ rs j. refl;
  ptr = λ rs j i. refl;
  tail_in = λ rs valid j. (valid j).tail_in;
}

one_more-Keeps : Keeps one_more
one_more-Keeps = record {
  cur = λ rs j. refl;
  head = λ rs j. refl;
  num_slots = λ rs j. refl;
  ptr = λ rs j i. refl;
  tail_in = λ rs valid j. following_in (rs j).num_slots (rs j).tail (valid j).tail_in;
}

outside-IsKernel : IsKernel outside
outside-IsKernel = record {
  rxsync = λ t. one_more-Keeps;
  poll = λ t. same-Keeps;
  status = λ t rs. refl;
}

-- Three passes over two rings.
serve-IsConsecutive_example :
    Found outside outside-IsKernel netmap-IsNetmap false phys phys_known
      (λ shown rings'. (j : ℕ) → 0 ≤ j → j ≤ 1 → IsConsecutive rings shown rings' j)
      (serve outside false 4 3 0 [] rings)
serve-IsConsecutive_example =
    serve-IsConsecutive outside outside-IsKernel netmap-IsNetmap false phys phys_known 4 3 rings
      rings-AllValid rings_small

-- Slot 0 of ring 1, which is the second that the kernel hands over.
pass-prints_example :
    (more : List Shown) × (rings' : Rings) × (pass outside false 4 0 rings ≡ passes more rings')
    × Memᴰ
        (shown_of outside outside-IsKernel netmap-IsNetmap false phys phys_known
          (polled outside 0 rings)
          1
          0)
        more
    × (netmap.nm_ring_empty (rings' 1) ≡ true)
pass-prints_example =
    pass-prints outside outside-IsKernel netmap-IsNetmap false phys phys_known 4 0 rings 1 0
      rings-AllValid rings_small refl (omega arith) (omega arith) (omega arith) (omega arith)

abbrev args : List Text
args = codes "-i" ∷ codes "netmap:p0" ∷ []

abbrev settings : Settings
settings = record { nm_name = some (codes "netmap:p0"); no_p2pmem = false }

args_parsed : parse_args args ≡ some settings
unfolding parse_args set_option getopt cluster
args_parsed = refl

main-Found_example :
    AllPlaced outside phys (start outside netmap-IsNetmap phys phys_known)
    × Found outside outside-IsKernel netmap-IsNetmap false phys phys_known
        (IsOwn (start outside netmap-IsNetmap phys phys_known))
        (main outside 4 3 args)
    × Found outside outside-IsKernel netmap-IsNetmap false phys phys_known
        (λ shown rings'.
          (j : ℕ)
          → 0 ≤ j
          → j ≤ 1
          → IsConsecutive (start outside netmap-IsNetmap phys phys_known) shown rings' j)
        (main outside 4 3 args)
main-Found_example =
    main-Found outside netmap-IsNetmap phys phys_known outside-IsKernel 4 3 args settings
      args_parsed refl refl refl refl same-Keeps (omega arith) rings-AllValid (λ j. omega arith)
      rings_small

main-IsReleased_example : IsReleased (main outside 4 3 args)
main-IsReleased_example = main-IsReleased outside 4 3 args
