-- ===== src/Uapi.antt =====
-- native-driver/nvpkt.h: what the tools hand to the driver, and the numbers of its requests.
use nvpkt.Base.{ℕ}

-- `struct nvpkt_xmit`: len is a `size_t`, slba and count are `__u64`.
pub record Xmit : Type 0 where
  pub len : ℕ
  pub slba : ℕ
  pub count : ℕ

-- `struct nvme_user_io` of <linux/nvme_ioctl.h>, the fields that the driver and the tools use.
pub record UserIo : Type 0 where
  pub opcode : ℕ
  pub flags : ℕ
  pub control : ℕ
  pub nblocks : ℕ
  pub addr : ℕ
  pub slba : ℕ
  pub dsmgmt : ℕ
  pub reftag : ℕ
  pub apptag : ℕ
  pub appmask : ℕ

-- `sizeof(struct nvpkt_xmit)` on a 64-bit machine: three fields of eight bytes.
abbrev pub xmit_size : ℕ
xmit_size = 24

-- `sizeof(struct nvme_user_io)`.
abbrev pub user_io_size : ℕ
user_io_size = 48

-- The numbers NVPKT_IOCTL_*, over the macro `_IOW(type, nr, size)` of <asm-generic/ioctl.h>.
module _ (iow : ℕ → ℕ → ℕ → ℕ) where
  abbrev pub ioctl_submit_io : ℕ
  ioctl_submit_io = iow b'N' 0x42 user_io_size

  abbrev pub ioctl_txpkt : ℕ
  ioctl_txpkt = iow b'N' 0x43 xmit_size

  abbrev pub ioctl_txpkt_count : ℕ
  ioctl_txpkt_count = iow b'N' 0x44 xmit_size
