-- ===== src/Unvme/Args/Whole.antt =====
-- userland-driver/tools/dump-nvme.c: what its command line asks for is what it prints.
use nvpkt.Base.{
  ℕ, ◌*◌, ◌<◌, ◌≡◌, ◌^◌, refl, ap, ◌∙◌, none, some, true, List, [], ◌∷◌, ◌++◌, u64, to_u64, pos,
  inl, arith,
}
use nvpkt.Args.{Text, value, getopt, each}
use nvpkt.Args.Print.{decimal, strtol-decimal}
use nvpkt.Args.Line.{dash}
use nvpkt.Packet.{Buffer}
use nvpkt.Hexdump.{title}
use nvpkt.Hexdump.Decode.{decode, bytes}
use nvpkt.Unvme.{Outside, End, dump_nvme}
use nvpkt.Unvme.Text.{decode-dump_nvme}
use nvpkt.Unvme.Args.{
  Settings, initial, option_string, set_option, parse_args, ended, run_allocated, run_opened,
  run_named, run_parsed, dump_nvme_main,
}

abbrev pub command_line : (pci : Text) (slba nblocks : ℕ) → List Text
command_line pci slba nblocks =
    dash b'p' ∷ pci ∷ dash b's' ∷ decimal slba ∷ dash b'n' ∷ decimal nblocks ∷ []

abbrev asked : (pci : Text) (slba nblocks : ℕ) → Settings
asked pci slba nblocks = record { pci = some pci; slba = some slba; nblocks = some nblocks }

getopt-line :
    (pci : Text) (slba nblocks : ℕ)
    → getopt option_string (command_line pci slba nblocks)
      ≡ value b'p' pci ∷ value b's' (decimal slba) ∷ value b'n' (decimal nblocks) ∷ []
unfolding getopt
getopt-line pci slba nblocks = refl

parse_args-line :
    (pci : Text) (slba nblocks : ℕ)
    → slba < 2 ^ 63
    → nblocks < 2 ^ 63
    → parse_args (command_line pci slba nblocks) ≡ some (asked pci slba nblocks)
unfolding parse_args set_option
parse_args-line pci slba nblocks hs hn =
    let word : to_u64 (pos slba) ≡ slba = omega arith in
    let word' : to_u64 (pos nblocks) ≡ nblocks = omega arith in
    ap (each set_option initial) (getopt-line pci slba nblocks)
    ∙ rw
        (
          each,
          strtol-decimal 0 slba (inl refl) hs,
          strtol-decimal 0 nblocks (inl refl) hn,
          word,
          word',
        )
        refl

-- `dump-nvme -p pci -s slba -n nblocks`, for a first block below 2^63 and less than 2^22 blocks,
-- with the device opened and the buffer allocated, and a read that leaves bytes in it: the program
-- ends with 0, and prints a text that, behind its title, reads back as all bytes of the `nblocks`
-- blocks from `slba` on, as the read left them in the buffer, whatever the status of the read.
pub decode-dump_nvme_main :
    (o : Outside) (pci : Text) (slba nblocks : ℕ) (buf : Buffer)
    → o.unvme_open ≡ true
    → o.unvme_alloc (u64 (nblocks * 512)) ≡ some buf
    → slba < 2 ^ 63
    → nblocks < 2 ^ 22
    → ((i : ℕ) → (o.unvme_read buf slba nblocks).1 i < 256)
    → (end : End) × (body : List ℕ) × (dump_nvme_main o (command_line pci slba nblocks) ≡ ended end)
      × (end.ret ≡ pos 0)
      × (end.text ≡ title ++ body)
      × (decode none body ≡ bytes (o.unvme_read buf slba nblocks).1 0 (nblocks * 512))
unfolding dump_nvme dump_nvme_main run_parsed run_named run_opened run_allocated
decode-dump_nvme_main o pci slba nblocks buf opens got hs few all_bytes =
    let (body, text, back) = decode-dump_nvme o slba nblocks buf opens got few all_bytes in
    (
      dump_nvme o slba nblocks,
      body,
      ap (run_parsed o) (parse_args-line pci slba nblocks hs (omega arith)) ∙ rw opens refl,
      rw (opens, got) refl,
      text,
      back,
    )
