-- ===== src/Driver/Skb/Audit.antt =====
-- native-driver/nvpkt.c, `skb_from_sgvec`: what it leaves in the books.
use nvpkt.Base.{
  ℕ, ◌+◌, ◌-◌, ◌<◌, min, ◌≡◌, refl, true, false, Option, none, some, List, [], ◌∷◌, ◌⊎◌, inl, inr,
  u32, ltb, Bool-cases, Option-cases, lt→ltb,
}
use nvpkt.Driver.Kernel.{Piece, Scatterlist, SkBuff, Kernel, Log, filled_frag, built_skb}
use nvpkt.Driver.Exec.{Outcome, done, ok, err, enomem, Status}
use nvpkt.Driver.Books.{Books, audit}
use nvpkt.Driver.Skb.{first_piece, later_piece, grown, put, skb_pieces, skb_from_sgvec}

-- The first piece fails to build, or an sk_buff is made and counted.
abbrev pub Made : Books → Outcome (Status (Option SkBuff)) × Log → Type 0
Made b run =
    ((l : Log) × (run ≡ (done (err enomem), l)) × (audit l ≡ some b))
    ⊎ ((skb : SkBuff) × (l : Log) × (run ≡ (done (ok (some skb)), l))
        × (audit l ≡ some (record b { skbs = b.skbs + 1 })))

module _ (k : Kernel) (length : ℕ) where
  -- Once there is an sk_buff the loop cannot fail, and does not touch the books.
  skb_pieces-some :
      (pieces : List Piece) (n offset : ℕ) (skb : SkBuff) (l : Log) {b : Books}
      → audit l ≡ some b
      → (skb' : SkBuff) × (l' : Log) × (skb_pieces k length pieces n offset (some skb) l
          ≡ (done (ok (some skb')), l'))
        × (audit l' ≡ some b)
  unfolding skb_pieces later_piece
  skb_pieces-some [] n offset skb l a = (skb, l, refl, a)
  skb_pieces-some (p ∷ ps) n offset skb l a =
      let len = u32 (min p.length (length - offset)) in
      elim (Bool-cases (ltb offset length)) [
        | inl more ↦ rw more (
            skb_pieces-some ps (n + 1) (u32 (offset + len)) (grown k skb p n len)
              (filled_frag n p.page p.offset len ∷ l) (rw a))
        | inr stop ↦ rw stop (skb, l, refl, a)
      ]

  skb_pieces-Made :
      (p : Piece) (ps : List Piece) (l : Log) {b : Books}
      → 0 < length
      → audit l ≡ some b
      → Made b (skb_pieces k length (p ∷ ps) 0 0 none l)
  unfolding skb_pieces first_piece
  skb_pieces-Made p ps l {b} pos a =
      let len = u32 (min p.length (length - 0)) in
      elim (Option-cases (k.build_skb l p.addr len)) [
        | inl none_built ↦
            rw (lt→ltb 0 length pos, none_built) (inl (built_skb p.addr len false ∷ l, refl, rw a))
        | inr (skb, e) ↦
            rw (lt→ltb 0 length pos, e)
              (inr (
                skb_pieces-some ps 0 (u32 (0 + len)) (put k skb len) (built_skb p.addr len true ∷ l)
                  (rw a)))
      ]

  pub skb_from_sgvec-Made :
      (sgl : Scatterlist) (l : Log) {b : Books} {p : Piece} {ps : List Piece}
      → sgl.pieces ≡ p ∷ ps
      → 0 < length
      → audit l ≡ some b
      → Made b (skb_from_sgvec k sgl length l)
  unfolding skb_from_sgvec
  skb_from_sgvec-Made sgl l {p} {ps} e pos a = rw e (skb_pieces-Made p ps l pos a)
