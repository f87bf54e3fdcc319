-- ===== src/Unvme/Tests.antt =====
-- The programs over libunvme with a device that answers everything.
use nvpkt.Base.{ℕ, ◌%◌, ◌≡◌, refl, none, some, true, List, [], ◌∷◌, ◌++◌, pos, negsuc, arith}
use nvpkt.Packet.{Buffer}
use nvpkt.Hexdump.{title}
use nvpkt.Hexdump.Decode.{decode, bytes}
use nvpkt.Unvme.{Outside, End}
use nvpkt.Args.{codes, getopt, cluster}
use nvpkt.Args.Numbers.{strtol, strip, unsigned_value, digits}
use nvpkt.Unvme.Args.{
  ended, unset, set_option, parse_args, run_opened, run_named, run_parsed, dump_nvme_main,
}
use nvpkt.Unvme.Args.Whole.{command_line, decode-dump_nvme_main}

abbrev stored : Buffer
stored i = i % 251

-- Every read fails, and leaves something behind.
abbrev outside : Outside
outside = record {
  unvme_open = true;
  unvme_alloc = λ _. some (λ _. 0);
  unvme_alloc_pram = λ _. some stored;
  unvme_write = λ _ _ _. negsuc 4;
  unvme_read = λ _ _ _. (negsuc 4, stored);
}

decode-dump_nvme_main_example :
    (end : End) × (body : List ℕ) × (dump_nvme_main outside
        (command_line (codes "0000:03:00.0") 1 2)
      ≡ ended end)
    × (end.ret ≡ pos 0)
    × (end.text ≡ title ++ body)
    × (decode none body ≡ bytes stored 0 1024)
decode-dump_nvme_main_example =
    decode-dump_nvme_main outside (codes "0000:03:00.0") 1 2 (λ _. 0) refl refl (omega arith)
      (omega arith) (λ i. omega arith)

-- Without `-n` the size is read from a variable that was never set.
unset_run : dump_nvme_main outside (codes "-p" ∷ codes "0" ∷ codes "-s" ∷ codes "1" ∷ []) ≡ unset
unfolding dump_nvme_main run_parsed run_named run_opened parse_args set_option getopt cluster strtol
    strip unsigned_value digits
unset_run = refl
