-- ===== src/Unvme/Text.antt =====
-- dump-nvme.c: what it prints.
use nvpkt.Base.{
  int_of, ℕ, ◌*◌, ◌<◌, ◌≡◌, ◌^◌, ap, ◌∙◌, none, some, true, List, ◌++◌, u64, pos, arith,
}
use nvpkt.Packet.{Buffer}
use nvpkt.Hexdump.{title, hexdump}
use nvpkt.Hexdump.Decode.{decode, bytes, decode-hexdump}
use nvpkt.Unvme.{Outside, dump_nvme}

module _ (o : Outside) where
  -- With the device opened and the buffer allocated, for less than 2^22 blocks: dump-nvme prints a text
  -- that, behind its title, reads back as all bytes of the blocks as the read left them in the
  -- buffer, whatever the status of the read.
  pub decode-dump_nvme :
      (slba nblocks : ℕ) (buf : Buffer)
      → o.unvme_open ≡ true
      → o.unvme_alloc (u64 (nblocks * 512)) ≡ some buf
      → nblocks < 2 ^ 22
      → ((i : ℕ) → (o.unvme_read buf slba nblocks).1 i < 256)
      → (body : List ℕ) × ((dump_nvme o slba nblocks).text ≡ title ++ body)
        × (decode none body ≡ bytes (o.unvme_read buf slba nblocks).1 0 (nblocks * 512))
  unfolding dump_nvme
  decode-dump_nvme slba nblocks buf opens got few all_bytes =
      let size : int_of (u64 (nblocks * 512)) ≡ pos (nblocks * 512) = ground arith in
      let (body, text, back) =
        decode-hexdump (o.unvme_read buf slba nblocks).1 (pos (nblocks * 512)) all_bytes in
      rw (opens, got) (body, ap (hexdump (o.unvme_read buf slba nblocks).1) size ∙ text, back)
