-- ===== src/Driver/Submit.antt =====
-- native-driver/nvpkt.c, `nvpkt_ioctl_submit_io` and the dispatch `nvpkt_ioctl`.
pub mod Audit
pub mod Ioctl
use Prim.Native.Nat.{bit_or}
use nvpkt.Base.{
  ℕ, ◌+◌, ◌*◌, ◌^◌, none, some, inl, inr, u16, u32, u64, ◌==◌, if◌then◌else◌, is_zero_ℤ, ℤ, pos,
}
use nvpkt.Uapi.{UserIo, user_io_size, ioctl_submit_io, ioctl_txpkt, ioctl_txpkt_count}
use nvpkt.Driver.Kernel.{
  Command, Request, Namespace, Kernel, copied_from_user, mapped_user, set_bio_disk, unmapped_user,
}
use nvpkt.Driver.Exec.{M, pure, crash, call, note, einval, eintr, ◌>>=◌, ◌>>◌}
use nvpkt.Driver.Xmit.{is_cancelled, put_request, alloc_request, execute, txpkt, txpkt_count}

-- The command that the user describes, each field cut to its width.
unfoldable pub user_command : Namespace → UserIo → Command
user_command ns io = record {
  opcode = io.opcode;
  nsid = u32 ns.ns_id;
  slba = u64 io.slba;
  length = u16 io.nblocks;
  control = u16 io.control;
  dsmgmt = u32 io.dsmgmt;
  reftag = u32 io.reftag;
  apptag = u16 io.apptag;
  appmask = u16 io.appmask;
}

-- `(io.nblocks + 1) << ns->lba_shift` as an `unsigned`
unfoldable pub user_length : Namespace → UserIo → ℕ
user_length ns io = u32 ((io.nblocks + 1) * 2 ^ ns.lba_shift)

module _ (k : Kernel) where
  -- NVME_REQ_USERCMD is the second bit of the flags, which are a `u8`.
  abbrev pub user_request : Request → Request
  user_request req = record req { timeout = k.admin_timeout; flags = bit_or req.flags 2 }

  -- from `bio->bi_disk` on
  unfoldable pub submit_run : Namespace → Request → ℕ → M ℤ
  unfolding put_request execute
  submit_run ns req bio = do
    note (set_bio_disk bio ns.disk)
    done ← execute k req
    let ret = if is_cancelled done.0 then eintr else pos done.1
    note (unmapped_user bio)
    put_request k req ret

  -- behind the mapping
  unfoldable pub submit_execute : Namespace → Request → M ℤ
  submit_execute ns req = elim (req.bio) [ none ↦ crash | some bio ↦ submit_run ns req bio ]

  -- behind the allocation
  unfoldable pub submit_map : Namespace → UserIo → Request → M ℤ
  unfolding put_request
  submit_map ns io req = do
    mapped ←
        call (λ l. k.blk_rq_map_user l req io.addr (user_length ns io))
          (λ r. mapped_user io.addr (user_length ns io) r.0)
    let req = record req { bio = mapped.1 }
    if is_zero_ℤ mapped.0 then submit_execute ns req else put_request k req mapped.0

  unfoldable pub submit_io : Namespace → ℕ → M ℤ
  unfolding alloc_request
  submit_io ns arg = do
    copied ← call (λ l. k.copy_user_io l arg) (λ _. copied_from_user user_io_size)
    if copied.0 == 0
        then (if copied.1.flags == 0
            then (do
              got ← alloc_request k (user_command ns copied.1)
              elim got [ inl e ↦ pure e | inr req ↦ submit_map ns copied.1 (user_request req) ])
            else pure einval)
        else pure einval

  -- The file operation: the three requests, and -EINVAL for any other.
  unfoldable pub ioctl : Namespace → ℕ → ℕ → ℕ → M ℤ
  ioctl ns netdev cmd arg =
      if cmd == ioctl_txpkt k.iow
      then txpkt k ns netdev arg
      else if cmd == ioctl_txpkt_count k.iow
      then txpkt_count k ns netdev arg
      else if cmd == ioctl_submit_io k.iow
      then submit_io ns arg
      else pure einval
