-- ===== src/Driver/Xmit/Payload.antt =====
-- native-driver/nvpkt.c, `nvpkt_ioctl_txpkt_one`: how much the device reads, how much of it reaches
-- the packet, and what a huge length does.
use nvpkt.Base.{ℕ, ◌+◌, ◌*◌, ◌^◌, ◌≡◌, some, ◌∷◌, true}
use nvpkt.Uapi.{Xmit}
use nvpkt.Driver.Kernel.{Scatterlist, Command, Namespace, Kernel, Log, allocated_sgl}
use nvpkt.Driver.Exec.{oops}
use nvpkt.Driver.Skb.Length.{skb_from_sgvec-empty}
use nvpkt.Driver.Xmit.{buffer_size, txpkt_one}

-- The bytes that a device moves for a command: its length field counts the blocks from 0.
abbrev pub transfer_bytes : Namespace → Command → ℕ
transfer_bytes ns c = (c.length + 1) * 2 ^ ns.lba_shift

module _ (k : Kernel) (ns : Namespace) (netdev : ℕ) where
  -- A packet length that wraps the size of the buffer to 0, with the scatterlist granted, makes the
  -- driver follow a NULL pointer right after the allocation.
  pub txpkt_one-oops :
      (npr : Xmit) (sgl : Scatterlist) (l : Log)
      → buffer_size k npr ≡ 0
      → k.sgl_alloc l (buffer_size k npr) ≡ some sgl
      → txpkt_one k ns netdev npr l ≡ (oops, allocated_sgl (buffer_size k npr) true ∷ l)
  unfolding txpkt_one
  txpkt_one-oops npr sgl l wraps got =
      rw (got, skb_from_sgvec-empty k sgl (buffer_size k npr) _ wraps)
