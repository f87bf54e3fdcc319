-- ===== src/Driver/Skb.antt =====
-- native-driver/nvpkt.c, `skb_from_sgvec`: an sk_buff over the pieces of a scatterlist. The first
-- piece becomes its linear buffer, each later one a fragment.

pub mod Audit
pub mod Length
use nvpkt.Base.{
  ℕ, ◌+◌, ◌-◌, ◌^◌, min, Option, none, some, List, [], ◌∷◌, u32, u64, ltb, if◌then◌else◌, is_some,
}
use nvpkt.Driver.Kernel.{Piece, Scatterlist, SkBuff, Kernel, built_skb, filled_frag}
use nvpkt.Driver.Exec.{M, pure, call, note, Status, ok, err, enomem, ◌>>=◌, ◌>>◌}

module _ (k : Kernel) where
  -- `skb_put(skb, len - sizeof(struct skb_shared_info))`
  abbrev pub put : SkBuff → ℕ → SkBuff
  put skb len = k.skb_put skb (u32 (u64 (len + 2 ^ 64 - k.shared_info)))

  -- `build_skb(addr, len)` and the `skb_put` behind it
  unfoldable pub first_piece : Piece → ℕ → M (Status SkBuff)
  first_piece piece len = do
    built ← call (λ l. k.build_skb l piece.addr len) (λ s. built_skb piece.addr len (is_some s))
    elim built [ none ↦ pure (err enomem) | some skb ↦ pure (ok (put skb len)) ]

  -- `skb_fill_page_desc`, and the lengths that the code adds by itself
  abbrev pub grown : SkBuff → Piece → ℕ → ℕ → SkBuff
  grown skb piece n len =
      let filled = k.skb_fill_page_desc skb n piece.page piece.offset len in
      record filled { len = u32 (filled.len + len); data_len = u32 (filled.data_len + len) }

  unfoldable pub later_piece : SkBuff → Piece → ℕ → ℕ → M SkBuff
  later_piece skb piece n len = do
    note (filled_frag n piece.page piece.offset len)
    pure (grown skb piece n len)

  -- The loop. `n` is the next fragment's index; `offset` and `len` are `unsigned int`.
  unfoldable pub skb_pieces : ℕ → List Piece → ℕ → ℕ → Option SkBuff → M (Status (Option SkBuff))
  skb_pieces length [] n offset skb = pure (ok skb)
  skb_pieces length (piece ∷ pieces) n offset none =
      let len = u32 (min piece.length (length - offset)) in
      if ltb offset length
      then (do
        first ← first_piece piece len
        elim first [
          | err e ↦ pure (err e)
          | ok skb ↦ skb_pieces length pieces n (u32 (offset + len)) (some skb)
        ])
      else pure (ok none)
  skb_pieces length (piece ∷ pieces) n offset (some skb) =
      let len = u32 (min piece.length (length - offset)) in
      if ltb offset length
      then (do
        skb' ← later_piece skb piece n len
        skb_pieces length pieces (n + 1) (u32 (offset + len)) (some skb'))
      else pure (ok (some skb))

  unfoldable pub skb_from_sgvec : Scatterlist → ℕ → M (Status (Option SkBuff))
  skb_from_sgvec sgl length = skb_pieces length sgl.pieces 0 0 none
