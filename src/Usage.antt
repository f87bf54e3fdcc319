-- ===== src/Usage.antt =====
-- The usage texts of userland-driver/tools (bench-nvme.c, load-and-xmit.c, xmit-from-pram.c,
-- recv-to-pram.c and dump-nvme.c), against the options that getopt is asked for.
use nvpkt.Base.{ℕ, ◌≡◌, Bool, false, [], ◌∷◌, ◌++◌, ◌==◌, ◌||◌, ◌&&◌, not, is_some, arith}
use nvpkt.Args.{Text, codes, lines, starts_with}
use nvpkt.Bench.Args.{option_string as bench_options}
use nvpkt.Load.Args.{option_string as load_options}
use nvpkt.Unvme.Args.{option_string as dump_options}
use nvpkt.Pram.Send.Main.{option_string as send_options}
use nvpkt.Pram.Recv.Main.{option_string as recv_options}

-- bench-nvme.c
abbrev pub bench_usage : Text
bench_usage = lines (
    (codes "usage:")
    ∷ (codes "    -m: mode, read or write")
    ∷ (codes "    -w: walk mode, random, seq, or same")
    ∷ (codes "    -s: message size (power of 512-byte)")
    ∷ (codes "    -b: batch size")
    ∷ (codes "    -n: number of cpus to be used")
    ∷ (codes "    -t: benchmark time (sec)")
    ∷ (codes "    -p: PCI num of target nvme device")
    ∷ [])

-- load-and-xmit.c, where -c stands on the line of -p
abbrev pub load_usage : Text
load_usage = lines (
    (codes "usage:")
    ∷ (codes "    -i NMNAME" ++ (9 ∷ codes " netmap port name to xmit packets"))
    ∷ (codes "    -s SLBA" ++ (9 ∷ codes " start logical address block"))
    ∷ (codes "    -n nblocks" ++ (9 ∷ codes " number of logical blocks read"))
    ∷ (codes
        "    -p PCIbus    pci num of nvme in which packet storead    -c count     number of loop")
    ∷ (codes "    -u usleep    usleep between tx packets")
    ∷ (codes "    -B batchsize batch size")
    ∷ [])

-- xmit-from-pram.c
abbrev pub send_usage : Text
send_usage = lines (
    (codes "usage:")
    ∷ (codes "    -i NMNAME" ++ (9 ∷ codes " netmap port name to xmit packets"))
    ∷ (codes "    -c count     number of loop")
    ∷ (codes "    -n no write  no overrite on pram")
    ∷ (codes "    -u usleep    usleep between tx packets")
    ∷ (codes "    -l pktlen    packet length")
    ∷ ([])
    ∷ [])

-- dump-nvme.c
abbrev pub dump_usage : Text
dump_usage = lines (
    (codes "usage:")
    ∷ (codes "    -p PCIbus")
    ∷ (codes "    -s SLBA")
    ∷ (codes "    -n Nblocks")
    ∷ [])

-- recv-to-pram.c, with the name of the program
abbrev pub recv_usage : Text → Text
recv_usage progname =
    codes "usage: "
    ++ (progname
        ++ (10 ∷ lines (codes "    -i netmap port" ∷ codes "    -n no p2pmem mode" ∷ [] ∷ [])))

-- The letters that a text gives as options: behind four blanks and a dash.
unfoldable pub documents : Text → ℕ → Bool
documents [] c = false
documents (x ∷ []) c = false
documents (x ∷ y ∷ rest) c =
    let later = documents (y ∷ rest) c in
    let here = starts_with (x ∷ y ∷ rest) (codes "    -" ++ (c ∷ [])) in here || later

-- bench-nvme.c asks for each option of its usage text, and for -v besides.
bench_usage-documents : (c : ℕ) → is_some (bench_options c) ≡ documents bench_usage c || (c == b'v')
unfolding documents
bench_usage-documents c = ground arith

-- dump-nvme.c asks for the options of its usage text.
dump_usage-documents : (c : ℕ) → is_some (dump_options c) ≡ documents dump_usage c
unfolding documents
dump_usage-documents c = ground arith

-- load-and-xmit.c asks for each option of its usage text but -B, and for -b besides.
load_usage-documents :
    (c : ℕ) → is_some (load_options c) ≡ (documents load_usage c && not (c == b'B')) || (c == b'b')
unfolding documents
load_usage-documents c = ground arith

-- xmit-from-pram.c asks for each option of its usage text, and for -b besides.
send_usage-documents : (c : ℕ) → is_some (send_options c) ≡ documents send_usage c || (c == b'b')
unfolding documents
send_usage-documents c = ground arith

-- recv-to-pram.c asks for the options of its usage text.
recv_usage-documents :
    (c : ℕ) → is_some (recv_options c) ≡ documents (recv_usage (codes "recv-to-pram")) c
unfolding documents
recv_usage-documents c = ground arith
