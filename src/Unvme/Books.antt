-- ===== src/Unvme/Books.antt =====
-- Which of the programs over libunvme give back what they took.
use nvpkt.Base.{
  ℕ, ◌*◌, ◌≡◌, refl, Option, none, some, Bool, true, false, [], ◌∷◌, u64, Bool-cases, Option-cases,
  inl, inr,
}
use nvpkt.Packet.{Buffer}
use nvpkt.Unvme.{
  Call, opened, allocated, written, read, freed, closed, Log, Outside, store_pkt, read_pkt,
  dump_nvme,
}

-- What a program holds, one within the other.
pub data Held : Type 0 where
  nothing device buffer : Held

-- What it holds after a call; `none` for a call that is out of place.
abbrev pub after : Held → Call → Option Held
after nothing opened = some device
after device (allocated _ _) = some buffer
after device closed = some nothing
after buffer (written _ _ _) = some buffer
after buffer (read _ _ _) = some buffer
after buffer freed = some device
after _ _ = none

unfoldable pub held : Log → Option Held
held [] = some nothing
held (c ∷ l) = elim (held l) [ none ↦ none | some h ↦ after h c ]

module _ (o : Outside) where
  -- store-pkt and dump-nvme, however their calls turn out, use the device and the buffer only while
  -- they hold them, and hold nothing at the end.
  tools-Released :
      (has_pci : Bool) (slba nblocks : ℕ)
      → (held ((store_pkt o has_pci).log) ≡ some nothing)
        × (held ((dump_nvme o slba nblocks).log) ≡ some nothing)
  unfolding store_pkt dump_nvme held
  tools-Released has_pci slba nblocks = (store has_pci, dump)
    where
      store : (has_pci : Bool) → held ((store_pkt o has_pci).log) ≡ some nothing
      store false = refl
      store true = elim (Bool-cases o.unvme_open) [
        | inr fails ↦ rw fails refl
        | inl opens ↦ elim (Option-cases (o.unvme_alloc_pram 4096)) [
          | inl refused ↦ rw (opens, refused) refl
          | inr (dst, got) ↦ rw (opens, got) refl
        ]
      ]

      dump : held ((dump_nvme o slba nblocks).log) ≡ some nothing
      dump = elim (Bool-cases o.unvme_open) [
        | inr fails ↦ rw fails refl
        | inl opens ↦ elim (Option-cases (o.unvme_alloc (u64 (nblocks * 512)))) [
          | inl refused ↦ rw (opens, refused) refl
          | inr (buf, got) ↦ rw (opens, got) refl
        ]
      ]

  -- read-pkt, once it has its memory, ends with the device open and the memory allocated.
  pub read_pkt-held :
      (dst : Buffer)
      → o.unvme_open ≡ true
      → o.unvme_alloc_pram 4096 ≡ some dst
      → held ((read_pkt o true).log) ≡ some buffer
  unfolding read_pkt held
  read_pkt-held dst opens got = rw (opens, got) refl
