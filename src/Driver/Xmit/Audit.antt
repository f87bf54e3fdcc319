-- ===== src/Driver/Xmit/Audit.antt =====
-- native-driver/nvpkt.c, `nvpkt_ioctl_txpkt_one`: on every path the request is freed, the packet is
-- sent only after the read was executed, and no NULL pointer is followed.
use nvpkt.Base.{
  ℕ, ◌+◌, ◌-◌, ◌<◌, ◌≡◌, refl, true, false, Option, none, some, ◌∷◌, inl, inr, ◌⊎◌, Bool-cases, ℤ,
  is_zero_ℤ, is_some, if◌then◌else◌, arith,
}
use nvpkt.Uapi.{Xmit}
use nvpkt.Driver.Kernel.{
  Scatterlist, SkBuff, Request, Command, Namespace, Kernel, Log, set_bio_disk, allocated_request,
  allocated_sgl,
}
use nvpkt.Driver.Exec.{Outcome, Returns}
use nvpkt.Driver.Docs.{IsDocumented, total-pos}
use nvpkt.Driver.Books.{
  Books, audit, Settled, Settled-of, Settled-self, Settled-freed, Returns-Settled,
}
use nvpkt.Driver.Skb.{skb_from_sgvec}
use nvpkt.Driver.Skb.Audit.{Made, skb_from_sgvec-Made}
use nvpkt.Driver.Bio.Audit.{Mapped, blk_rq_map_from_sgl-Mapped}
use nvpkt.Driver.Bio.{blk_rq_map_from_sgl}
use nvpkt.Driver.Xmit.{
  is_cancelled, put_request, alloc_request, execute, transmit, txpkt_run, txpkt_execute, txpkt_map,
  txpkt_request, read_command, buffer_size, txpkt_one,
}

module _ (k : Kernel) (ns : Namespace) where
  -- With a request at hand and an sk_buff: the request is gone afterwards.
  abbrev Finished : Books → Outcome ℤ × Log → Type 0
  Finished b =
      Returns (λ _ l'. Settled (record b { requests = b.requests - 1; skbs = b.skbs - 1 }) l')

  txpkt_run-Settled :
      (skb : SkBuff) (req : Request) (bio : ℕ) (l : Log) {b : Books}
      → audit l ≡ some b
      → 0 < b.requests
      → 0 < b.skbs
      → Finished b (txpkt_run k ns skb req bio l)
  unfolding txpkt_run put_request execute transmit
  txpkt_run-Settled skb req bio l {b} a one built =
      elim (Bool-cases (is_cancelled (k.blk_execute_rq (set_bio_disk bio ns.disk ∷ l) req).0)) [
        | inl cancelled ↦ rw cancelled (record {
          books = record b { requests = b.requests - 1; read = false };
          audited = ground arith;
          requests = refl;
          user_maps = refl;
          sgls = refl;
          asked = refl;
          skbs = omega arith;
        })
        | inr finished ↦ rw finished (record {
          books = record b { requests = b.requests - 1; skbs = b.skbs - 1; read = false };
          audited = ground arith;
          requests = refl;
          user_maps = refl;
          sgls = refl;
          asked = refl;
          skbs = omega arith;
        })
      ]

  txpkt_map-Settled :
      (docs : IsDocumented k) (npr : Xmit) (sgl : Scatterlist) (skb : SkBuff) (req : Request)
      (l : Log) {b : Books}
      → audit l ≡ some b
      → 0 < b.requests
      → 0 < b.skbs
      → Finished b (txpkt_map k ns npr sgl skb req l)
  unfolding txpkt_map txpkt_execute put_request
  txpkt_map-Settled docs npr sgl skb req l {b} a one built =
      go (blk_rq_map_from_sgl-Mapped k docs req sgl npr.len l a)
    where
      go :
          Mapped k b req (blk_rq_map_from_sgl k req sgl npr.len l)
          → Finished b (txpkt_map k ns npr sgl skb req l)
      go m = elim (Bool-cases (is_zero_ℤ m.ret)) [
        | inl mapped ↦
            rw (m.runs, mapped, (m.has_bio mapped).1)
              (txpkt_run-Settled skb (record req { timeout = k.admin_timeout; bio = m.bio })
                (m.has_bio mapped).0 m.log m.audited one built)
        | inr failed ↦
            rw (m.runs, failed)
              (Settled-of (Settled-freed req.tag m.audited one) refl refl refl refl (omega arith))
      ]

  txpkt_request-Settled :
      (docs : IsDocumented k) (netdev : ℕ) (npr : Xmit) (sgl : Scatterlist) (skb : SkBuff) (l : Log)
      (b : Books)
      → audit l ≡ some (record b { skbs = b.skbs + 1 })
      → Returns (λ _ l'. Settled b l') (txpkt_request k ns netdev npr sgl skb l)
  unfolding txpkt_request alloc_request
  txpkt_request-Settled docs netdev npr sgl skb l b a = go (k.nvme_alloc_request l c) refl
    where
      c : Command
      c = read_command ns npr

      ready : SkBuff
      ready = k.skb_set_mac_header (record skb { dev = netdev }) 0

      go :
          (r : ℤ ⊎ Request)
          → k.nvme_alloc_request l c ≡ r
          → Returns (λ _ l'. Settled b l') (txpkt_request k ns netdev npr sgl skb l)
      go (inl e) eq = rw eq (
          Settled-of (Settled-self {b = record b { skbs = b.skbs + 1 }} (rw a)) refl refl refl refl
            (omega arith))
      go (inr req) eq = rw eq (
          Returns-Settled b
            (record b { requests = b.requests + 1 - 1; skbs = b.skbs + 1 - 1; read = false })
            (omega arith) refl refl refl (omega arith) _
            (txpkt_map-Settled docs npr sgl ready req (allocated_request c true ∷ l)
              {b = record b { requests = b.requests + 1; skbs = b.skbs + 1; read = false }} (rw a)
              (omega arith) (omega arith)))

  -- 1 if the scatterlist is granted
  abbrev pub granted : Xmit → Log → ℕ
  granted npr l = if is_some (k.sgl_alloc l (buffer_size k npr)) then 1 else 0

  -- Sending one packet, whatever the kernel answers within its documentation and as long as the
  -- size of the buffer does not wrap to 0, follows no NULL pointer and keeps the log in order (the
  -- packet goes out only after the read was executed, only live requests are used and freed);
  -- afterwards every request is freed, and exactly the scatterlist that was granted, if any, is
  -- left behind.
  pub txpkt_one-Settled :
      (docs : IsDocumented k) (netdev : ℕ) (npr : Xmit) (l : Log) {b : Books}
      → 0 < buffer_size k npr
      → audit l ≡ some b
      → Returns
          (λ _ l'. Settled (record b { sgls = b.sgls + granted npr l; asked = b.asked + 1 }) l')
          (txpkt_one k ns netdev npr l)
  unfolding txpkt_one
  txpkt_one-Settled docs netdev npr l {b} room a = go (k.sgl_alloc l size) refl
    where
      size : ℕ
      size = buffer_size k npr

      Goal : ℕ → Type 0
      Goal n =
          Returns (λ _ l'. Settled (record b { sgls = b.sgls + n; asked = b.asked + 1 }) l')
            (txpkt_one k ns netdev npr l)

      build :
          (sgl : Scatterlist)
          → k.sgl_alloc l size ≡ some sgl
          → Made
              (record b { sgls = b.sgls + 1; asked = b.asked + 1 })
              (skb_from_sgvec k sgl size (allocated_sgl size true ∷ l))
          → Goal 1
      build sgl eq (inl (l', e, a')) = rw (eq, e) (Settled-self a')
      build sgl eq (inr (skb, l', e, a')) =
          rw (eq, e)
            (txpkt_request-Settled docs netdev npr sgl skb l'
              (record b { sgls = b.sgls + 1; asked = b.asked + 1 }) a')

      go : (o : Option Scatterlist) → k.sgl_alloc l size ≡ o → Goal (if is_some o then 1 else 0)
      go none eq = rw eq (
          Settled-of
            (Settled-self {b = record b { asked = b.asked + 1 }} {l = allocated_sgl size false ∷ l}
              (rw a))
            refl refl (omega arith) refl (omega arith))
      go (some sgl) eq =
          let (p, ps, e) = total-pos sgl.pieces (rw (docs.sgl_total l size sgl eq) room) in
          build sgl eq (skb_from_sgvec-Made k size sgl (allocated_sgl size true ∷ l) e room (rw a))
