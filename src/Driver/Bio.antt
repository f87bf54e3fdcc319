-- ===== src/Driver/Bio.antt =====
-- native-driver/nvpkt.c, `blk_rq_map_from_sgl`: the pieces of a scatterlist as the pages of a
-- request's bio.
pub mod Audit
pub mod Sizes
use nvpkt.Base.{
  ℕ, ◌+◌, ◌-◌, ◌^◌, min, none, some, List, [], ◌∷◌, u32, ltb, ◌==◌, if◌then◌else◌, is_some, ℤ,
}
use nvpkt.Driver.Kernel.{
  Piece, Scatterlist, Request, Kernel, allocated_bio, added_page, appended_bio,
}
use nvpkt.Driver.Exec.{M, pure, call, note, enomem, ◌>>=◌, ◌>>◌}

module _ (k : Kernel) where
  -- What is mapped of a piece of which `len` bytes are wanted: the first one gives up the room of
  -- the `skb_shared_info`. `dma_len` is an `unsigned int`.
  abbrev pub dma_len : ℕ → ℕ → ℕ
  dma_len offset len = if offset == 0 then u32 (len + 2 ^ 64 - k.shared_info) else len

  -- The loop. What `bio_add_pc_page` returns is only printed.
  unfoldable pub bio_pieces : ℕ → ℕ → List Piece → ℕ → M (Unit {0})
  bio_pieces bio length [] offset = pure tt
  bio_pieces bio length (piece ∷ pieces) offset =
      let len = u32 (min piece.length (length - offset)) in
      if ltb offset length
      then (do
        call (λ l. k.bio_add_pc_page l bio piece.page (dma_len offset len) piece.offset)
            (λ ret. added_page bio piece.page (dma_len offset len) piece.offset ret)
        bio_pieces bio length pieces (u32 (offset + len)))
      else pure tt

  -- the status, and the request with the bio that it has afterwards
  unfoldable pub blk_rq_map_from_sgl : Request → Scatterlist → ℕ → M (ℤ × Request)
  blk_rq_map_from_sgl req sgl length = do
    got ← call (λ l. k.bio_kmalloc l sgl.nents) (λ b. allocated_bio sgl.nents (is_some b))
    elim got [
      | none ↦ pure (enomem, req)
      | some bio ↦ do
        bio_pieces bio length sgl.pieces 0
        appended ← call (λ l. k.blk_rq_append_bio l req bio) (λ r. appended_bio bio r.0)
        pure (appended.0, record req { bio = appended.1 })
    ]
