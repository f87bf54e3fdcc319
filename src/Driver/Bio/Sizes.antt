-- ===== src/Driver/Bio/Sizes.antt =====
-- native-driver/nvpkt.c, `blk_rq_map_from_sgl`: how many bytes of the scatterlist the device may
-- write.
use nvpkt.Base.{
  ℕ, ◌+◌, ◌-◌, ◌≤◌, ◌<◌, ◌^◌, min, ◌≡◌, some, List, [], ◌∷◌, inl, inr, u32, ltb, lt→ltb, ltb→lt,
  ltb→le, Bool-cases, ℤ, true, arith,
}
use nvpkt.Driver.Kernel.{
  Piece, Scatterlist, Request, Kernel, Log, allocated_bio, added_page, appended_bio,
}
use nvpkt.Driver.Exec.{done, Returns, Returns-mono, Returns-after}
use nvpkt.Driver.Docs.{AddsWhole, total}
use nvpkt.Driver.Bio.{dma_len, bio_pieces, blk_rq_map_from_sgl}

-- the bytes that were ever added to a bio
abbrev pub mapped_bytes : Log → ℕ
mapped_bytes [] = 0
mapped_bytes (added_page _ _ _ _ added ∷ l) = added + mapped_bytes l
mapped_bytes (_ ∷ l) = mapped_bytes l

module _ (k : Kernel) (whole : AddsWhole k) (bio size : ℕ) (small : size < 2 ^ 32) where
  -- Behind the first piece every byte is mapped.
  bio_pieces-mapped_bytes :
      (pieces : List Piece) (offset : ℕ) (l : Log)
      → 0 < offset
      → offset ≤ size
      → size ≤ offset + total pieces
      → Returns
          (λ _ l'. mapped_bytes l' + offset ≡ mapped_bytes l + size)
          (bio_pieces k bio size pieces offset l)
  unfolding bio_pieces
  bio_pieces-mapped_bytes [] offset l begun within enough = omega arith
  bio_pieces-mapped_bytes (p ∷ ps) offset l begun within enough =
      let used = u32 (min p.length (size - offset)) in
      let later : dma_len k offset used ≡ used = ground arith in
      let added = whole l bio p.page (dma_len k offset used) p.offset in
      elim (Bool-cases (ltb offset size)) [
        | inl more ↦ rw more (
            Returns-mono (λ _ l'. mapped_bytes l' + offset ≡ mapped_bytes l + size)
              (λ _ l' h. omega (arith, h, later, added, ltb→lt offset size more)) _
              (bio_pieces-mapped_bytes ps (u32 (offset + used)) _ (omega arith) (omega arith)
                (omega arith)))
        | inr stop ↦ rw stop (omega (arith, ltb→le offset size stop))
      ]

  -- Of the first piece the room of the `skb_shared_info` is left out.
  bio_pieces-short :
      (p : Piece) (ps : List Piece) (l : Log)
      → 0 < size
      → size ≤ total (p ∷ ps)
      → k.shared_info ≤ p.length
      → k.shared_info ≤ size
      → 0 < p.length
      → Returns
          (λ _ l'. mapped_bytes l' + k.shared_info ≡ mapped_bytes l + size)
          (bio_pieces k bio size (p ∷ ps) 0 l)
  unfolding bio_pieces
  bio_pieces-short p ps l some_bytes enough room big first =
      let used = u32 (min p.length (size - 0)) in
      let short : dma_len k 0 used + k.shared_info ≡ used = omega arith in
      rw (lt→ltb 0 size some_bytes) (
        Returns-mono (λ _ l'. mapped_bytes l' + k.shared_info ≡ mapped_bytes l + size)
          (λ _ l' h. omega (arith, h, short, whole l bio p.page (dma_len k 0 used) p.offset)) _
          (bio_pieces-mapped_bytes ps (u32 (0 + used)) _ (omega arith) (omega arith) (omega arith)))

module _ (k : Kernel) (whole : AddsWhole k) where
  -- The call as a whole: no bio, or all bytes but those of the `skb_shared_info` mapped.
  pub blk_rq_map_from_sgl-short :
      (req : Request) (sgl : Scatterlist) (size : ℕ) (p : Piece) (ps : List Piece) (bio : ℕ)
      (l : Log)
      → size < 2 ^ 32
      → sgl.pieces ≡ p ∷ ps
      → 0 < size
      → size ≤ total sgl.pieces
      → k.shared_info ≤ p.length
      → k.shared_info ≤ size
      → 0 < p.length
      → k.bio_kmalloc l sgl.nents ≡ some bio
      → Returns
          (λ _ l'. mapped_bytes l' + k.shared_info ≡ mapped_bytes l + size)
          (blk_rq_map_from_sgl k req sgl size l)
  unfolding blk_rq_map_from_sgl
  blk_rq_map_from_sgl-short req sgl size p ps bio l small e some_bytes enough room big first got =
      rw (got, e)
        (Returns-after
          (λ (_ : ℤ × Request) l'. mapped_bytes l' + k.shared_info ≡ mapped_bytes l + size)
          (λ _ l₁. (
            done (
              (k.blk_rq_append_bio l₁ req bio).0,
              record req { bio = (k.blk_rq_append_bio l₁ req bio).1 },
            ),
            appended_bio bio (k.blk_rq_append_bio l₁ req bio).0 ∷ l₁,
          ))
          (λ _ l₁ h. h) _
          (bio_pieces-short k whole bio size small p ps (allocated_bio sgl.nents true ∷ l)
            some_bytes (rw e at enough) room big first))
