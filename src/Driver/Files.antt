-- ===== src/Driver/Files.antt =====
-- native-driver/nvpkt.c, `nvpkt_fops`: the operations on /dev/nvpkt, and a run of them one after
-- another.
pub mod Session
use nvpkt.Base.{ℕ, List, [], ◌∷◌, ℤ, pos}
use nvpkt.Driver.Kernel.{Namespace, Kernel}
use nvpkt.Driver.Exec.{M, pure, ◌>>=◌}
use nvpkt.Driver.Submit.{ioctl}

-- What the kernel calls the driver for, with the arguments that matter.
pub data Operation : Type 0 where
  open_file release_file : Operation
  read_file write_file : (buf count : ℕ) → Operation
  unlocked_ioctl : (cmd arg : ℕ) → Operation

module _ (k : Kernel) (ns : Namespace) (netdev : ℕ) where
  -- the table: nvpkt_open, nvpkt_release, nvpkt_read, nvpkt_write and nvpkt_ioctl
  unfoldable pub nvpkt_fops : Operation → M ℤ
  nvpkt_fops open_file = pure (pos 0)
  nvpkt_fops release_file = pure (pos 0)
  nvpkt_fops (read_file buf count) = pure (pos 0)
  nvpkt_fops (write_file buf count) = pure (pos 0)
  nvpkt_fops (unlocked_ioctl cmd arg) = ioctl k ns netdev cmd arg

  -- the results of several operations
  unfoldable pub session : List Operation → M (List ℤ)
  unfolding nvpkt_fops
  session [] = pure []
  session (op ∷ ops) = do r ← nvpkt_fops op; rs ← session ops; pure (r ∷ rs)
