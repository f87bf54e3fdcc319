-- ===== src/Client/Run.antt =====
-- native-driver/tools on the driver: what a run of a tool does to the kernel, and what it
-- returns.
use nvpkt.Base.{
  ℕ, ◌+◌, ◌-◌, ◌<◌, ◌^◌, ◌%◌, ◌≡◌, ap, subst, ◌∙◌, false, ◌==◌, ltb, some, to_u64, to_s64, pos,
  le→ltb, arith,
}
use nvpkt.Uapi.{Xmit}
use nvpkt.Driver.Kernel.{Namespace, Kernel, Log}
use nvpkt.Driver.Exec.{Returns, Returns-after, pure}
use nvpkt.Driver.Docs.{IsDocumented}
use nvpkt.Driver.Books.{Books, audit, Settled}
use nvpkt.Driver.Xmit.{buffer_size, txpkt_count}
use nvpkt.Driver.Xmit.Count.{Tried, txpkt_count-Tried}
use nvpkt.Driver.Submit.{submit_io}
use nvpkt.Driver.Submit.Audit.{submit_io-Settled}
use nvpkt.Driver.Submit.Ioctl.{TellsApart, ioctl_dispatch}
use nvpkt.Client.{to_int, exit_status, xmit_pkt_request, xmit_pkt, store_pkt}

module _ (k : Kernel) (ns : Namespace) (netdev : ℕ) (docs : IsDocumented k)
    (apart : TellsApart k) where
  -- `xmit-pkt n`, for 0 < n < 2^31 - 1, on a documented kernel, with the device opened and its
  -- request copied: the driver tries exactly `n` packets, `main` returns `n + 1`, and the exit
  -- status that the caller of the program sees is the low 8 bits of that.
  pub xmit_pkt-Tried :
      (fd n arg : ℕ) (l : Log) (b : Books)
      → 0 < n
      → n < 2 ^ 31 - 1
      → k.copy_xmit l arg ≡ (0, xmit_pkt_request (pos n))
      → audit l ≡ some b
      → Returns
          (λ r l'. (r ≡ pos (n + 1)) × (exit_status r ≡ (n + 1) % 256) × Tried b n l')
          (xmit_pkt k ns netdev (pos fd) (pos n) arg l)
  unfolding xmit_pkt
  xmit_pkt-Tried fd n arg l b some_packets few copied a =
      let request : (k.copy_xmit l arg).1 ≡ xmit_pkt_request (pos n) =
        ap (λ (c : ℕ × Xmit). c.1) copied in
      let count : (k.copy_xmit l arg).1.count ≡ n =
        ap (λ (x : Xmit). x.count) request ∙ omega arith in
      let len : (k.copy_xmit l arg).1.len ≡ 1024 = ap (λ (x : Xmit). x.len) request in
      let all : (k.copy_xmit l arg).0 ≡ 0 = ap (λ (c : ℕ × Xmit). c.0) copied in
      let room : 0 < buffer_size k (k.copy_xmit l arg).1 = omega (arith, len, docs.info_small) in
      let no_failure : ltb (fd + 0) 0 ≡ false = le→ltb (fd + 0) 0 (omega arith) in
      let counted : (to_u64 (pos n) == 0) ≡ false = ground arith in
      rw (no_failure, counted, (ioctl_dispatch k ns netdev apart arg l).1)
        (Returns-after (λ r l'. (r ≡ pos (n + 1)) × (exit_status r ≡ (n + 1) % 256) × Tried b n l')
          (λ ret. pure (to_int ret))
          (λ r l' t.
            let returned : to_int r ≡ pos (n + 1) =
              ap to_int (t.0 ∙ ap (λ c. to_s64 (c + 1)) count) ∙ ground arith in
            (returned, ap exit_status returned ∙ ground arith, subst (λ c. Tried b c l') count t.1))
          (txpkt_count k ns netdev arg l) (txpkt_count-Tried k ns docs netdev arg l b all room a))

  -- `store-pkt` with the device opened, whatever the kernel answers: no NULL pointer is followed, the
  -- log stays in order, and no request, no user page and no scatterlist is held afterwards that was
  -- not held before.
  pub store_pkt-Settled :
      (fd arg : ℕ) (l : Log) (b : Books)
      → audit l ≡ some b
      → Returns (λ _ l'. Settled b l') (store_pkt k ns netdev (pos fd) arg l)
  unfolding store_pkt
  store_pkt-Settled fd arg l b a =
      let no_failure : ltb (fd + 0) 0 ≡ false = le→ltb (fd + 0) 0 (omega arith) in
      rw (no_failure, (ioctl_dispatch k ns netdev apart arg l).2)
        (Returns-after (λ _ l'. Settled b l') (λ ret. pure (to_int ret)) (λ r l' s. s)
          (submit_io k ns arg l) (submit_io-Settled k ns docs arg l b a))
