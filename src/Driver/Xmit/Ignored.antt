-- ===== src/Driver/Xmit/Ignored.antt =====
-- native-driver/nvpkt.c, `nvpkt_ioctl_txpkt_one`: the status of the read, `nvme_req(req)->status`,
-- is stored in `ret` and overwritten.
use nvpkt.Base.{
  ℕ, ◌+◌, ◌-◌, ◌≡◌, refl, some, none, Option, List, [], ◌∷◌, inl, inr, true, ℤ, ◌⊎◌, is_zero_ℤ, min,
  ltb, u32, Bool-cases, Option-cases,
}
use nvpkt.Uapi.{Xmit}
use nvpkt.Driver.Kernel.{
  Piece, Scatterlist, SkBuff, Request, Namespace, Kernel, Log, filled_frag, built_skb, added_page,
}
use nvpkt.Driver.Exec.{Status, ok, err, after-congr}
use nvpkt.Driver.Skb.{first_piece, later_piece, grown, put, skb_pieces, skb_from_sgvec}
use nvpkt.Driver.Bio.{dma_len, bio_pieces, blk_rq_map_from_sgl}
use nvpkt.Driver.Xmit.{
  put_request, alloc_request, execute, transmit, txpkt_run, txpkt_execute, txpkt_map, txpkt_request,
  txpkt_built, read_command, buffer_size, txpkt_one,
}

-- The same kernel, but for the status of each request.
abbrev pub with_status : Kernel → (Log → Request → ℕ) → Kernel
with_status k status = record k { blk_execute_rq = λ l r. ((k.blk_execute_rq l r).0, status l r) }

module _ (k : Kernel) (status : Log → Request → ℕ) where
  skb_pieces-with_status :
      (size : ℕ) (pieces : List Piece) (n offset : ℕ) (skb : Option SkBuff) (l : Log)
      → skb_pieces (with_status k status) size pieces n offset skb l
        ≡ skb_pieces k size pieces n offset skb l
  unfolding skb_pieces first_piece later_piece
  skb_pieces-with_status size [] n offset skb l = refl
  skb_pieces-with_status size (p ∷ ps) n offset none l =
      let used = u32 (min p.length (size - offset)) in
      elim (Bool-cases (ltb offset size)) [
        | inr stop ↦ rw stop
        | inl more ↦ elim (Option-cases (k.build_skb l p.addr used)) [
          | inl refused ↦ rw (more, refused)
          | inr (skb, built) ↦
              rw (more, built)
                (skb_pieces-with_status size ps n (u32 (offset + used)) (some (put k skb used))
                  (built_skb p.addr used true ∷ l))
        ]
      ]
  skb_pieces-with_status size (p ∷ ps) n offset (some skb) l =
      let used = u32 (min p.length (size - offset)) in
      elim (Bool-cases (ltb offset size)) [
        | inr stop ↦ rw stop
        | inl more ↦ rw more (
            skb_pieces-with_status size ps (n + 1) (u32 (offset + used))
              (some (grown k skb p n used)) (filled_frag n p.page p.offset used ∷ l))
      ]

  bio_pieces-with_status :
      (bio size : ℕ) (pieces : List Piece) (offset : ℕ) (l : Log)
      → bio_pieces (with_status k status) bio size pieces offset l
        ≡ bio_pieces k bio size pieces offset l
  unfolding bio_pieces
  bio_pieces-with_status bio size [] offset l = refl
  bio_pieces-with_status bio size (p ∷ ps) offset l =
      let used = u32 (min p.length (size - offset)) in
      elim (Bool-cases (ltb offset size)) [
        | inr stop ↦ rw stop
        | inl more ↦ rw more (
            bio_pieces-with_status bio size ps (u32 (offset + used)) (
              added_page bio p.page (dma_len k offset used) p.offset
                (k.bio_add_pc_page l bio p.page (dma_len k offset used) p.offset)
              ∷ l))
      ]

  blk_rq_map_from_sgl-with_status :
      (req : Request) (sgl : Scatterlist) (size : ℕ) (l : Log)
      → blk_rq_map_from_sgl (with_status k status) req sgl size l
        ≡ blk_rq_map_from_sgl k req sgl size l
  unfolding blk_rq_map_from_sgl
  blk_rq_map_from_sgl-with_status req sgl size l = elim (Option-cases (k.bio_kmalloc l sgl.nents)) [
    | inl refused ↦ rw refused
    | inr (bio, got) ↦ rw (got, bio_pieces-with_status)
  ]

  module _ (ns : Namespace) (netdev : ℕ) (npr : Xmit) where
    txpkt_run-with_status :
        (skb : SkBuff) (req : Request) (bio : ℕ) (l : Log)
        → txpkt_run (with_status k status) ns skb req bio l ≡ txpkt_run k ns skb req bio l
    unfolding txpkt_run put_request execute transmit
    txpkt_run-with_status skb req bio l = refl

    txpkt_execute-with_status :
        (skb : SkBuff) (req : Request) (l : Log)
        → txpkt_execute (with_status k status) ns skb req l ≡ txpkt_execute k ns skb req l
    unfolding txpkt_execute
    txpkt_execute-with_status skb req l = elim (Option-cases req.bio) [
      | inl nothing ↦ rw nothing
      | inr (bio, has) ↦ rw (has, txpkt_run-with_status)
    ]

    txpkt_map-with_status :
        (sgl : Scatterlist) (skb : SkBuff) (req : Request) (l : Log)
        → txpkt_map (with_status k status) ns npr sgl skb req l ≡ txpkt_map k ns npr sgl skb req l
    unfolding txpkt_map put_request
    txpkt_map-with_status sgl skb req l = rw blk_rq_map_from_sgl-with_status (
        after-congr _ _
          (λ (r : ℤ × Request) l₁. elim (Bool-cases (is_zero_ℤ r.0)) [
            | inl mapped ↦ rw mapped (txpkt_execute-with_status skb r.1 l₁)
            | inr failed ↦ rw failed
          ])
          (blk_rq_map_from_sgl k req sgl npr.len l))

    txpkt_request-with_status :
        (sgl : Scatterlist) (skb : SkBuff) (l : Log)
        → txpkt_request (with_status k status) ns netdev npr sgl skb l
          ≡ txpkt_request k ns netdev npr sgl skb l
    unfolding txpkt_request alloc_request
    txpkt_request-with_status sgl skb l = go (k.nvme_alloc_request l (read_command ns npr)) refl
      where
        go :
            (r : ℤ ⊎ Request)
            → k.nvme_alloc_request l (read_command ns npr) ≡ r
            → txpkt_request (with_status k status) ns netdev npr sgl skb l
              ≡ txpkt_request k ns netdev npr sgl skb l
        go (inl e) eq = rw eq
        go (inr req) eq = rw eq (txpkt_map-with_status sgl _ req _)

    built-with_status :
        (sgl : Scatterlist) (r : Status (Option SkBuff)) (l : Log)
        → txpkt_built (with_status k status) ns netdev npr sgl r l
          ≡ txpkt_built k ns netdev npr sgl r l
    built-with_status sgl (err e) l = refl
    built-with_status sgl (ok none) l = refl
    built-with_status sgl (ok (some skb)) l = txpkt_request-with_status sgl skb l

    -- The outcome and the calls of sending a packet do not depend on the status of the read: a read
    -- that failed is sent as one that did not.
    pub txpkt_one-with_status :
        (l : Log) → txpkt_one (with_status k status) ns netdev npr l ≡ txpkt_one k ns netdev npr l
    unfolding txpkt_one skb_from_sgvec
    txpkt_one-with_status l = go (k.sgl_alloc l (buffer_size k npr)) refl
      where
        go :
            (o : Option Scatterlist)
            → k.sgl_alloc l (buffer_size k npr) ≡ o
            → txpkt_one (with_status k status) ns netdev npr l ≡ txpkt_one k ns netdev npr l
        go none eq = rw eq
        go (some sgl) eq =
            rw (eq, skb_pieces-with_status)
              (after-congr _ _ (built-with_status sgl)
                (skb_pieces k (buffer_size k npr) sgl.pieces 0 0 none _))
