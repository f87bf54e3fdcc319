-- ===== src/Driver/Docs.antt =====
-- What the driver relies on of the kernel's functions, as their documentation states it.
use nvpkt.Base.{ℕ, ◌+◌, ◌<◌, ◌^◌, ◌≡◌, refl, arith, some, List, [], ◌∷◌, u32, pos}
use nvpkt.Driver.Kernel.{Piece, Scatterlist, SkBuff, Request, Kernel, Log}

-- the bytes that the pieces hold
abbrev pub total : List Piece → ℕ
total [] = 0
total (p ∷ ps) = p.length + total ps

pub record IsDocumented (k : Kernel) : Type 0 where
  -- `sgl_alloc` gives as many bytes as it was asked for.
  pub sgl_total :
      (l : Log) (n : ℕ) (s : Scatterlist) → k.sgl_alloc l n ≡ some s → total s.pieces ≡ n
  -- A request that a bio was appended to, or user pages were mapped into, has a bio.
  pub append_sets :
      (l : Log) (r : Request) (b : ℕ)
      → (k.blk_rq_append_bio l r b).0 ≡ pos 0
      → (c : ℕ) × ((k.blk_rq_append_bio l r b).1 ≡ some c)
  pub map_sets :
      (l : Log) (r : Request) (a n : ℕ)
      → (k.blk_rq_map_user l r a n).0 ≡ pos 0
      → (c : ℕ) × ((k.blk_rq_map_user l r a n).1 ≡ some c)
  -- A new sk_buff is empty; `skb_put` extends it; a fragment's descriptor does not change lengths.
  pub build_len :
      (l : Log) (a n : ℕ) (s : SkBuff) → k.build_skb l a n ≡ some s → (s.len ≡ 0) × (s.data_len ≡ 0)
  pub put_len :
      (s : SkBuff) (n : ℕ)
      → ((k.skb_put s n).len ≡ u32 (s.len + n)) × ((k.skb_put s n).data_len ≡ s.data_len)
  pub fill_len :
      (s : SkBuff) (i p o n : ℕ)
      → ((k.skb_fill_page_desc s i p o n).len ≡ s.len)
        × ((k.skb_fill_page_desc s i p o n).data_len ≡ s.data_len)
  pub mac_len :
      (s : SkBuff) (n : ℕ)
      → ((k.skb_set_mac_header s n).len ≡ s.len)
        × ((k.skb_set_mac_header s n).data_len ≡ s.data_len)
  pub info_small : k.shared_info < 2 ^ 31

-- No page is refused by `bio_add_pc_page`, or added in part.
abbrev pub AddsWhole : Kernel → Type 0
AddsWhole k = (l : Log) (bio page size offset : ℕ) → k.bio_add_pc_page l bio page size offset ≡ size

-- A scatterlist that holds something has a first piece.
pub total-pos : (ps : List Piece) → 0 < total ps → (p : Piece) × (qs : List Piece) × (ps ≡ p ∷ qs)
total-pos [] h = absurd (omega arith)
total-pos (p ∷ ps) h = (p, ps, refl)
