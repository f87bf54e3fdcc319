-- ===== src/Unvme.antt =====
-- The programs of userland-driver/tools that only call libunvme: `main` of store-pkt.c, read-pkt.c and
-- dump-nvme.c. The first two take the address of the device as their only argument; the arguments of
-- dump-nvme.c are in Args.
pub mod Books
pub mod Text
pub mod Args
mod Tests
use nvpkt.Base.{
  ℕ, ◌*◌, ◌-◌, ◌^◌, Bool, true, false, Option, none, some, List, [], ◌∷◌, ltb, if◌then◌else◌, u32,
  u64, int_of, ℤ, pos, negsuc,
}
use nvpkt.Packet.{Buffer}
use nvpkt.Hexdump.{hexdump}

-- The calls of the library, which concern the one device and the one buffer of a program; a call that
-- did not give what it was asked for is not an opening.
pub data Call : Type 0 where
  opened : Call
  allocated : (pram : Bool) (size : ℕ) → Call
  written read : (queue slba nblocks : ℕ) → Call
  freed closed : Call

-- newest first
abbrev pub Log : Type 0
Log = List Call

-- What stands outside: whether the device opens, the buffer with what it holds, the status of a write,
-- and what a read makes of the buffer, whatever its status.
pub record Outside : Type 0 where
  pub unvme_open : Bool
  pub unvme_alloc : ℕ → Option Buffer
  pub unvme_alloc_pram : ℕ → Option Buffer
  pub unvme_write : Buffer → (slba nblocks : ℕ) → ℤ
  pub unvme_read : Buffer → (slba nblocks : ℕ) → ℤ × Buffer

-- The end of a program: its status, its calls, and the text that `hexdump` has printed.
pub record End : Type 0 where
  pub ret : ℤ
  pub log : Log
  pub text : List ℕ

module _ (o : Outside) where
  -- store-pkt.c: `has_pci` says whether there is an argument; block 1 is written.
  unfoldable pub store_pkt : (has_pci : Bool) → End
  store_pkt has_pci =
      if has_pci
      then (if o.unvme_open
          then elim (o.unvme_alloc_pram 4096) [
            | none ↦ record { ret = negsuc 0; log = closed ∷ opened ∷ []; text = [] }
            | some dst ↦ record {
              ret = o.unvme_write dst 1 1;
              log = closed ∷ freed ∷ written 1 1 1 ∷ allocated true 4096 ∷ opened ∷ [];
              text = [];
            }
          ]
          else record { ret = negsuc 0; log = []; text = [] })
      else record { ret = negsuc 0; log = []; text = [] }

  -- read-pkt.c: what the memory holds is printed.
  unfoldable pub read_pkt : (has_pci : Bool) → End
  read_pkt has_pci =
      if has_pci
      then (if o.unvme_open
          then elim (o.unvme_alloc_pram 4096) [
            | none ↦ record { ret = negsuc 0; log = closed ∷ opened ∷ []; text = [] }
            | some dst ↦ record {
              ret = pos 0;
              log = allocated true 4096 ∷ opened ∷ [];
              text = hexdump dst (pos 128);
            }
          ]
          else record { ret = negsuc 0; log = []; text = [] })
      else record { ret = negsuc 0; log = []; text = [] }

  -- dump-nvme.c, with `slba` and `nblocks` of type `u64`: the status of the read is not looked at.
  unfoldable pub dump_nvme : (slba nblocks : ℕ) → End
  dump_nvme slba nblocks =
      let size = u64 (nblocks * 512) in
      if o.unvme_open
      then elim (o.unvme_alloc size) [
        | none ↦ record { ret = pos 0; log = closed ∷ opened ∷ []; text = [] }
        | some buf ↦ record {
          ret = pos 0;
          log = closed ∷ freed ∷ read 0 slba nblocks ∷ allocated false size ∷ opened ∷ [];
          text = hexdump (o.unvme_read buf slba nblocks).1 (int_of size);
        }
      ]
      else record { ret = negsuc 0; log = []; text = [] }
