-- ===== src/Client.antt =====
-- The programs of native-driver/tools, which ask the driver by ioctl: `main` of xmit-pkt.c, and
-- `main` of store-pkt.c behind the building of the packet.
pub mod Run
mod Tests
use nvpkt.Base.{
  ℕ, Bool, true, ◌==◌, ltb, if◌then◌else◌, u32, to_u64, ℤ, pos, negsuc, ltb_ℤ, int_of, is_zero_ℤ,
  ◌-◌, ◌^◌, ◌%◌,
}
use nvpkt.Uapi.{Xmit, UserIo, ioctl_txpkt, ioctl_txpkt_count, ioctl_submit_io}
use nvpkt.Driver.Kernel.{Namespace, Kernel}
use nvpkt.Driver.Exec.{M, pure, ◌>>=◌}
use nvpkt.Driver.Submit.{ioctl}

-- The result of `ioctl` in a program: -1 for a status of the driver from -4095 to -1, and else its
-- low 32 bits.
abbrev pub to_int : ℤ → ℤ
to_int (pos n) = int_of n
to_int (negsuc n) = if ltb n 4095 then negsuc 0 else int_of (2 ^ 64 - 1 - n)

-- What the caller of a tool sees of the value that `main` returns: its low 8 bits.
abbrev pub exit_status : ℤ → ℕ
exit_status r = to_u64 r % 256

-- xmit-pkt.c: `count` is the argument, as `atoi` reads it, or 0; `arg` is the address of `npr`.
abbrev pub xmit_pkt_request : (count : ℤ) → Xmit
xmit_pkt_request count = record { len = 1024; slba = 1; count = to_u64 count }

-- store-pkt.c: the packet is in `buf`; NVMe counts `nblocks` from 0.
abbrev pub store_pkt_io : (buf : ℕ) → UserIo
store_pkt_io buf = record {
  opcode = 1;
  flags = 0;
  control = 0;
  nblocks = 1;
  addr = buf;
  slba = 1;
  dsmgmt = 0;
  reftag = 0;
  apptag = 0;
  appmask = 0;
}

module _ (k : Kernel) (ns : Namespace) (netdev : ℕ) where
  abbrev pub sys_ioctl : (fd : ℤ) (cmd arg : ℕ) → M ℤ
  sys_ioctl fd cmd arg = do ret ← ioctl k ns netdev cmd arg; pure (to_int ret)

  unfoldable pub xmit_pkt : (fd count : ℤ) (arg : ℕ) → M ℤ
  xmit_pkt fd count arg =
      if ltb_ℤ fd (pos 0)
      then pure fd
      else if to_u64 count == 0
      then sys_ioctl fd (ioctl_txpkt k.iow) arg
      else sys_ioctl fd (ioctl_txpkt_count k.iow) arg

  unfoldable pub store_pkt : (fd : ℤ) (arg : ℕ) → M ℤ
  store_pkt fd arg = if ltb_ℤ fd (pos 0) then pure fd else sys_ioctl fd (ioctl_submit_io k.iow) arg
