-- ===== src/Driver/Files/Session.antt =====
-- native-driver/nvpkt.c: the books over a whole run of file operations.
use nvpkt.Base.{ℕ, ◌+◌, ◌<◌, ◌≡◌, refl, ap, some, List, [], ◌∷◌, length, suc, ℤ}
use nvpkt.Driver.Kernel.{Namespace, Kernel, Log}
use nvpkt.Driver.Exec.{pure, Returns, Returns-after, ◌>>=◌}
use nvpkt.Driver.Docs.{IsDocumented}
use nvpkt.Driver.Books.{Books, audit, Settled-self}
use nvpkt.Driver.Xmit.{buffer_size}
use nvpkt.Driver.Xmit.Count.{Tried, Tried-add}
use nvpkt.Driver.Submit.Ioctl.{Orderly, Settled-Tried, ioctl-Orderly}
use nvpkt.Driver.Files.{
  Operation, open_file, release_file, read_file, write_file, unlocked_ioctl, nvpkt_fops, session,
}

module _ (k : Kernel) (ns : Namespace) (netdev : ℕ) (docs : IsDocumented k)
    (room : (l : Log) (arg : ℕ) → 0 < buffer_size k (k.copy_xmit l arg).1) where
  pub nvpkt_fops-Orderly :
      (op : Operation) (l : Log) (b : Books)
      → audit l ≡ some b
      → Orderly k ns netdev b (nvpkt_fops k ns netdev op l)
  unfolding nvpkt_fops
  nvpkt_fops-Orderly open_file l b a = (0, Settled-Tried k ns netdev (Settled-self a))
  nvpkt_fops-Orderly release_file l b a = (0, Settled-Tried k ns netdev (Settled-self a))
  nvpkt_fops-Orderly (read_file buf count) l b a = (0, Settled-Tried k ns netdev (Settled-self a))
  nvpkt_fops-Orderly (write_file buf count) l b a = (0, Settled-Tried k ns netdev (Settled-self a))
  nvpkt_fops-Orderly (unlocked_ioctl cmd arg) l b a =
      ioctl-Orderly k ns netdev docs cmd arg l b (room l arg) a

  -- what a run leaves
  abbrev pub RunsOrderly : Books → ℕ → List ℤ → Log → Type 0
  RunsOrderly b count rs l' = (length rs ≡ count) × ((n : ℕ) × Tried b n l')

  -- Whatever file operations processes ask for, one after another, as long as no packet length wraps
  -- the size of its buffer to 0, and whatever the kernel answers within its documentation: the driver
  -- follows no NULL pointer and answers each of them, and the log stays in order; no request and no
  -- user page is held afterwards that was not held before, and at most one scatterlist is left for
  -- each packet tried.
  pub session-Orderly :
      (ops : List Operation) (l : Log) (b : Books)
      → audit l ≡ some b
      → Returns (RunsOrderly b (length ops)) (session k ns netdev ops l)
  unfolding session
  session-Orderly [] l b a = (refl, (0, Settled-Tried k ns netdev (Settled-self a)))
  session-Orderly (op ∷ ops) l b a =
      Returns-after {A = ℤ} {P = λ _ l₁. (n : ℕ) × Tried b n l₁} (RunsOrderly b (suc (length ops)))
        (λ r. session k ns netdev ops >>= λ rs. pure (r ∷ rs))
        (λ r l₁ (n, t).
          Returns-after {A = List ℤ} {P = RunsOrderly t.settled.books (length ops)}
            (RunsOrderly b (suc (length ops))) (λ rs. pure (r ∷ rs))
            (λ rs l₂ (len, (m, u)). (ap suc len, (n + m, Tried-add t u)))
            (session k ns netdev ops l₁) (session-Orderly ops l₁ t.settled.books t.settled.audited))
        (nvpkt_fops k ns netdev op l) (nvpkt_fops-Orderly op l b a)
