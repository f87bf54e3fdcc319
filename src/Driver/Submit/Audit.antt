-- ===== src/Driver/Submit/Audit.antt =====
-- native-driver/nvpkt.c, `nvpkt_ioctl_submit_io`: on every path the request is freed and the user's
-- pages are unmapped, and nothing else is left behind.
use nvpkt.Base.{
  ℕ, ◌+◌, ◌-◌, ◌<◌, ◌≡◌, refl, true, false, some, ◌∷◌, inl, inr, ◌⊎◌, Bool-cases, ℤ, is_zero_ℤ,
  arith, ◌==◌,
}
use nvpkt.Uapi.{UserIo, user_io_size}
use nvpkt.Driver.Kernel.{
  Request, Command, Namespace, Kernel, Log, allocated_request, copied_from_user,
}
use nvpkt.Driver.Exec.{M, pure, ◌>>=◌, Returns}
use nvpkt.Driver.Docs.{IsDocumented}
use nvpkt.Driver.Books.{Books, audit, Settled, Settled-self, Settled-freed, Returns-Settled}
use nvpkt.Driver.Bio.Audit.{is_zero_ℤ→eq}
use nvpkt.Driver.Xmit.{put_request, alloc_request, execute}
use nvpkt.Driver.Submit.{
  user_command, user_length, user_request, submit_run, submit_execute, submit_map, submit_io,
}

module _ (k : Kernel) (ns : Namespace) where
  submit_run-Settled :
      (req : Request) (bio : ℕ) (l : Log) (b : Books)
      → audit l ≡ some (record b { user_maps = b.user_maps + 1 })
      → 0 < b.requests
      → Returns
          (λ _ l'. Settled (record b { requests = b.requests - 1 }) l')
          (submit_run k ns req bio l)
  unfolding submit_run put_request execute
  submit_run-Settled req bio l b a one = record {
    books = record b { requests = b.requests - 1; read = false };
    audited = ground arith;
    requests = refl;
    user_maps = refl;
    sgls = refl;
    asked = refl;
    skbs = omega arith;
  }

  submit_map-Settled :
      (docs : IsDocumented k) (io : UserIo) (req : Request) (l : Log) (b : Books)
      → audit l ≡ some b
      → 0 < b.requests
      → Returns
          (λ _ l'. Settled (record b { requests = b.requests - 1 }) l')
          (submit_map k ns io req l)
  unfolding submit_map submit_execute put_request
  submit_map-Settled docs io req l b a one =
      elim (Bool-cases (is_zero_ℤ (k.blk_rq_map_user l req io.addr (user_length ns io)).0)) [
        | inl mapped ↦
            let set = docs.map_sets l req io.addr (user_length ns io) (is_zero_ℤ→eq _ mapped) in
            rw (mapped, set.1)
              (submit_run-Settled (record req { bio = some set.0 }) set.0 _ b (ground arith) one)
        | inr failed ↦ rw failed (Settled-freed {b = b} req.tag (ground arith) one)
      ]

  -- NVPKT_IOCTL_SUBMIT_IO, on every path, follows no NULL pointer and keeps the log in order;
  -- afterwards every request is freed, every user page is unmapped, and no scatterlist was asked
  -- for.
  pub submit_io-Settled :
      (docs : IsDocumented k) (arg : ℕ) (l : Log) (b : Books)
      → audit l ≡ some b
      → Returns (λ _ l'. Settled b l') (submit_io k ns arg l)
  unfolding submit_io alloc_request
  submit_io-Settled docs arg l b a = elim (Bool-cases ((k.copy_user_io l arg).0 == 0)) [
    | inr short ↦ rw short (Settled-self {b = b} {l = l₁} (rw a))
    | inl full ↦ rw full (elim (Bool-cases (io.flags == 0)) [
      | inr flagged ↦ rw flagged (Settled-self {b = b} {l = l₁} (rw a))
      | inl plain ↦ rw plain (go (k.nvme_alloc_request l₁ c) refl)
    ])
  ]
    where
      io : UserIo
      io = (k.copy_user_io l arg).1

      c : Command
      c = user_command ns io

      l₁ : Log
      l₁ = copied_from_user user_io_size ∷ l

      rest : ℤ ⊎ Request → M ℤ
      rest got = elim got [ inl e ↦ pure e | inr req ↦ submit_map k ns io (user_request k req) ]

      go :
          (r : ℤ ⊎ Request)
          → k.nvme_alloc_request l₁ c ≡ r
          → Returns (λ _ l'. Settled b l') ((alloc_request k c >>= rest) l₁)
      go (inl e) eq = rw eq (Settled-self {b = b} {l = allocated_request c false ∷ l₁} (rw a))
      go (inr req) eq = rw eq (
          Returns-Settled b (record b { requests = b.requests + 1 - 1; read = false }) (omega arith)
            refl refl refl (omega arith) _
            (submit_map-Settled docs io (user_request k req) (allocated_request c true ∷ l₁)
              (record b { requests = b.requests + 1; read = false }) (rw a) (omega arith)))
