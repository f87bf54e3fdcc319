-- ===== src/Driver/Submit/Ioctl.antt =====
-- native-driver/nvpkt.c, `nvpkt_ioctl` as a whole, and the command of `nvpkt_ioctl_submit_io`.
use nvpkt.Base.{
  ℕ, ◌+◌, ◌*◌, ◌^◌, ◌<◌, ◌≡◌, ◌≢◌, refl, some, ◌==◌, ne→==, ==_self, ==→eq, ==→ne, ◌∷◌, ℤ,
  Bool-cases, inl, inr, arith,
}
use nvpkt.Uapi.{UserIo, xmit_size, ioctl_submit_io, ioctl_txpkt, ioctl_txpkt_count}
use nvpkt.Driver.Kernel.{Namespace, Kernel, Log, copied_from_user}
use nvpkt.Driver.Exec.{Outcome, done, Returns, Returns-mono, einval}
use nvpkt.Driver.Docs.{IsDocumented}
use nvpkt.Driver.Books.{Books, audit, Settled, Settled-of, Settled-self}
use nvpkt.Driver.Xmit.{buffer_size, txpkt, txpkt_count}
use nvpkt.Driver.Xmit.Count.{Tried, txpkt-Tried, txpkt_count-Tried, copy_fault}
use nvpkt.Driver.Xmit.Payload.{transfer_bytes}
use nvpkt.Driver.Submit.{user_command, user_length, submit_io, ioctl}
use nvpkt.Driver.Submit.Audit.{submit_io-Settled}

-- For a block count of 16 bits and a transfer below 2^32 bytes, the command of SUBMIT_IO moves
-- exactly as many bytes as the driver maps for it.
pub transfer_bytes-user_command :
    (ns : Namespace) (io : UserIo)
    → io.nblocks < 2 ^ 16
    → (io.nblocks + 1) * 2 ^ ns.lba_shift < 2 ^ 32
    → transfer_bytes ns (user_command ns io) ≡ user_length ns io
unfolding user_command user_length
transfer_bytes-user_command ns io h w = ground arith

-- `_IOW` tells numbers of one byte apart.
abbrev pub TellsApart : Kernel → Type 0
TellsApart k = (a b s t : ℕ) → a < 256 → b < 256 → a ≢ b → k.iow b'N' a s ≢ k.iow b'N' b t

module _ (k : Kernel) (ns : Namespace) (netdev : ℕ) where
  -- The three numbers reach their three handlers.
  pub ioctl_dispatch :
      TellsApart k
      → (arg : ℕ) (l : Log)
      → (ioctl k ns netdev (ioctl_txpkt k.iow) arg l ≡ txpkt k ns netdev arg l)
        × (ioctl k ns netdev (ioctl_txpkt_count k.iow) arg l ≡ txpkt_count k ns netdev arg l)
        × (ioctl k ns netdev (ioctl_submit_io k.iow) arg l ≡ submit_io k ns arg l)
  unfolding ioctl
  ioctl_dispatch apart arg l = (
    rw ==_self,
    rw (ne→== _ _ (apart 0x44 0x43 24 24 (omega arith) (omega arith) (omega arith)), ==_self),
    rw (
      ne→== _ _ (apart 0x42 0x43 48 24 (omega arith) (omega arith) (omega arith)),
      ne→== _ _ (apart 0x42 0x44 48 24 (omega arith) (omega arith) (omega arith)),
      ==_self,
    ),
  )

  -- Any other number is refused before the kernel is called.
  pub ioctl_unknown :
      (cmd arg : ℕ) (l : Log)
      → cmd ≢ ioctl_txpkt k.iow
      → cmd ≢ ioctl_txpkt_count k.iow
      → cmd ≢ ioctl_submit_io k.iow
      → ioctl k ns netdev cmd arg l ≡ (done einval, l)
  unfolding ioctl
  ioctl_unknown cmd arg l a b c = rw (ne→== _ _ a, ne→== _ _ b, ne→== _ _ c)

  abbrev pub Orderly : Books → Outcome ℤ × Log → Type 0
  Orderly b = Returns (λ _ l'. (n : ℕ) × Tried b n l')

  pub Settled-Tried : {b : Books} {l : Log} → Settled b l → Tried b 0 l
  Settled-Tried s = record {
    left = 0;
    few = omega arith;
    settled = Settled-of s refl refl (omega arith) (omega arith) (omega arith);
  }

  txpkt-Orderly :
      (docs : IsDocumented k) (arg : ℕ) (l : Log) (b : Books)
      → 0 < buffer_size k (k.copy_xmit l arg).1
      → audit l ≡ some b
      → Orderly b (txpkt k ns netdev arg l) × Orderly b (txpkt_count k ns netdev arg l)
  txpkt-Orderly docs arg l b room a = elim (Bool-cases ((k.copy_xmit l arg).0 == 0)) [
    | inl all ↦ (
      Returns-mono (λ _ l'. (n : ℕ) × Tried b n l') (λ _ _ t. (1, t)) _
          (txpkt-Tried k ns docs netdev arg l b (==→eq _ _ all) room a),
      Returns-mono (λ _ l'. (n : ℕ) × Tried b n l') (λ _ _ t. ((k.copy_xmit l arg).1.count, t.1)) _
          (txpkt_count-Tried k ns docs netdev arg l b (==→eq _ _ all) room a),
    )
    | inr short ↦
        let (e, e') = copy_fault k ns netdev arg l (==→ne _ _ short) in
        let s : Settled b (copied_from_user xmit_size ∷ l) = Settled-self (rw a) in
        (rw e (0, Settled-Tried s), rw e' (0, Settled-Tried s))
  ]

  -- Whatever number and argument a process passes, as long as the size of the buffer does not wrap
  -- to 0, the driver follows no NULL pointer and the log stays in order; no request and no user
  -- page is held afterwards that was not held before, and at most one scatterlist is left for each
  -- packet tried.
  pub ioctl-Orderly :
      (docs : IsDocumented k) (cmd arg : ℕ) (l : Log) (b : Books)
      → 0 < buffer_size k (k.copy_xmit l arg).1
      → audit l ≡ some b
      → Orderly b (ioctl k ns netdev cmd arg l)
  unfolding ioctl
  ioctl-Orderly docs cmd arg l b room a = elim (Bool-cases (cmd == ioctl_txpkt k.iow)) [
    | inl one ↦ rw one (txpkt-Orderly docs arg l b room a).0
    | inr not_one ↦ rw not_one (elim (Bool-cases (cmd == ioctl_txpkt_count k.iow)) [
      | inl many ↦ rw many (txpkt-Orderly docs arg l b room a).1
      | inr not_many ↦ rw not_many (elim (Bool-cases (cmd == ioctl_submit_io k.iow)) [
        | inl submit ↦ rw submit (
            Returns-mono (λ _ l'. (n : ℕ) × Tried b n l') (λ _ _ s. (0, Settled-Tried s)) _
              (submit_io-Settled k ns docs arg l b a))
        | inr unknown ↦ rw unknown (0, Settled-Tried (Settled-self a))
      ])
    ])
  ]
