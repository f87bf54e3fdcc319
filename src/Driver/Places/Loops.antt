-- ===== src/Driver/Places/Loops.antt =====
-- native-driver/nvpkt.c, `skb_from_sgvec` and `blk_rq_map_from_sgl`: which stretches of memory they use.
use mathlib.Core.List.{append_assoc, append-nil}
use nvpkt.Base.{
  ℕ, ◌+◌, ◌-◌, ◌<◌, ◌^◌, ◌≡◌, refl, sym, subst, true, Option, some, List, [], ◌∷◌, ◌++◌, u32, u64,
  ltb, min, Bool-cases, Option-cases, inl, inr, ltb→lt, lt→ltb, ℤ, arith, ◌⊎◌,
}
use nvpkt.Driver.Kernel.{
  Piece, Scatterlist, SkBuff, Request, Kernel, Log, built_skb, filled_frag, allocated_bio,
  added_page, appended_bio,
}
use nvpkt.Driver.Docs.{AddsWhole}
use nvpkt.Driver.Exec.{Status, ok, done, Returns, Returns-after}
use nvpkt.Driver.Skb.{first_piece, later_piece, grown, put, skb_pieces, skb_from_sgvec}
use nvpkt.Driver.Bio.{dma_len, bio_pieces, blk_rq_map_from_sgl}
use nvpkt.Driver.Places.{Stretches, skb_places, bio_places, used_of}

module _ (k : Kernel) (page_address : ℕ → ℕ) where
  -- the sk_buff, if one is made, is over `stretches`, and no bio yet
  abbrev pub IsOver : (stretches : Stretches) → Status (Option SkBuff) → Log → Type 0
  IsOver stretches (ok (some skb)) l =
      (skb_places k page_address l ≡ stretches) × (bio_places k page_address l ≡ [])
  IsOver stretches _ l = bio_places k page_address l ≡ []

  skb_pieces-IsOver :
      (length : ℕ) (ps : List Piece) (n offset : ℕ) (skb : SkBuff) (l : Log)
      → bio_places k page_address l ≡ []
      → Returns
          (IsOver (skb_places k page_address l ++ used_of k page_address length ps offset))
          (skb_pieces k length ps n offset (some skb) l)
  unfolding skb_pieces later_piece skb_places bio_places used_of
  skb_pieces-IsOver length [] n offset skb l none_yet =
      (sym (append-nil (skb_places k page_address l)), none_yet)
  skb_pieces-IsOver length (p ∷ ps) n offset skb l none_yet =
      let used = u32 (min p.length (length - offset)) in
      let l' = filled_frag n p.page p.offset used ∷ l in
      elim (Bool-cases (ltb offset length)) [
        | inl more ↦ rw more (
            subst
              (λ s. Returns (IsOver s) (
                skb_pieces k length ps (n + 1) (u32 (offset + used)) (some (grown k skb p n used))
                  l'))
              (append_assoc (skb_places k page_address l)
                ((page_address p.page + p.offset, used) ∷ [])
                (used_of k page_address length ps (u32 (offset + used))))
              (skb_pieces-IsOver length ps (n + 1) (u32 (offset + used)) (grown k skb p n used) l'
                none_yet))
        | inr stop ↦ rw stop (sym (append-nil (skb_places k page_address l)), none_yet)
      ]

  pub skb_from_sgvec-IsOver :
      (length : ℕ) (sgl : Scatterlist) (p : Piece) (ps : List Piece) (l : Log)
      → sgl.pieces ≡ p ∷ ps
      → 0 < length
      → bio_places k page_address l ≡ []
      → let used = u32 (min p.length (length - 0)) in
        Returns
          (IsOver (
            (p.addr, u32 (u64 (used + 2 ^ 64 - k.shared_info)))
            ∷ used_of k page_address length ps (u32 (0 + used))))
          (skb_from_sgvec k sgl length l)
  unfolding skb_from_sgvec skb_pieces first_piece skb_places bio_places
  skb_from_sgvec-IsOver length sgl p ps l e some_bytes none_yet =
      let used = u32 (min p.length (length - 0)) in
      elim (Option-cases (k.build_skb l p.addr used)) [
        | inl refused ↦ rw (e, lt→ltb 0 length some_bytes, refused) none_yet
        | inr (skb, built) ↦
            rw (e, lt→ltb 0 length some_bytes, built)
              (skb_pieces-IsOver length ps 0 (u32 (0 + used)) (put k skb used)
                (built_skb p.addr used true ∷ l) none_yet)
      ]

  -- The sk_buff is left alone, and the bio has `stretches`.
  abbrev pub IsMapped : Log → (stretches : Stretches) → Log → Type 0
  IsMapped l stretches l' =
      (skb_places k page_address l' ≡ skb_places k page_address l)
      × (bio_places k page_address l' ≡ stretches)

  bio_pieces-IsMapped :
      (whole : AddsWhole k) (bio length : ℕ) (ps : List Piece) (offset : ℕ) (l : Log)
      → length < 2 ^ 32
      → 0 < offset
      → Returns
          (λ _. IsMapped l (bio_places k page_address l ++ used_of k page_address length ps offset))
          (bio_pieces k bio length ps offset l)
  unfolding bio_pieces skb_places bio_places used_of
  bio_pieces-IsMapped whole bio length [] offset l small begun =
      (refl, sym (append-nil (bio_places k page_address l)))
  bio_pieces-IsMapped whole bio length (p ∷ ps) offset l small begun =
      let used = u32 (min p.length (length - offset)) in
      let later : dma_len k offset used ≡ used = ground arith in
      let l' = added_page bio p.page used p.offset used ∷ l in
      elim (Bool-cases (ltb offset length)) [
        | inl more ↦
            rw (more, later, whole l bio p.page used p.offset)
              (subst
                (λ s.
                  Returns (λ _. IsMapped l s) (bio_pieces k bio length ps (u32 (offset + used)) l'))
                (append_assoc (bio_places k page_address l)
                  ((page_address p.page + p.offset, used) ∷ [])
                  (used_of k page_address length ps (u32 (offset + used))))
                (bio_pieces-IsMapped whole bio length ps (u32 (offset + used)) l' small
                  (omega (arith, ltb→lt offset length more))))
        | inr stop ↦ rw stop (refl, sym (append-nil (bio_places k page_address l)))
      ]

  -- No bio, or one over the first piece less the room of the `skb_shared_info`, and what else is used.
  pub blk_rq_map_from_sgl-IsMapped :
      (whole : AddsWhole k) (length : ℕ) (req : Request) (sgl : Scatterlist) (p : Piece)
      (ps : List Piece) (l : Log)
      → sgl.pieces ≡ p ∷ ps
      → length < 2 ^ 32
      → 0 < length
      → 0 < p.length
      → let used = u32 (min p.length (length - 0)) in
        Returns
          (λ _ l'.
            IsMapped l [] l'
            ⊎ IsMapped l
                ((page_address p.page + p.offset, dma_len k 0 used)
                  ∷ used_of k page_address length ps (u32 (0 + used)))
                l')
          (blk_rq_map_from_sgl k req sgl length l)
  unfolding blk_rq_map_from_sgl bio_pieces skb_places bio_places
  blk_rq_map_from_sgl-IsMapped whole length req sgl p ps l e small some_bytes first =
      let used = u32 (min p.length (length - 0)) in
      elim (Option-cases (k.bio_kmalloc l sgl.nents)) [
        | inl refused ↦ rw refused (inl (refl, refl))
        | inr (bio, got) ↦
            let l' =
              added_page bio p.page (dma_len k 0 used) p.offset (dma_len k 0 used)
              ∷ allocated_bio sgl.nents true
              ∷ l in
            rw
              (
                got,
                e,
                lt→ltb 0 length some_bytes,
                whole (allocated_bio sgl.nents true ∷ l) bio p.page (dma_len k 0 used) p.offset,
              )
              (Returns-after {A = Unit {0}}
                {P = λ _. IsMapped l (
                  (page_address p.page + p.offset, dma_len k 0 used)
                  ∷ used_of k page_address length ps (u32 (0 + used)))}
                (λ (_ : ℤ × Request) m.
                  IsMapped l [] m
                  ⊎ IsMapped l
                      ((page_address p.page + p.offset, dma_len k 0 used)
                        ∷ used_of k page_address length ps (u32 (0 + used)))
                      m)
                (λ _ l₁. (
                  done (
                    (k.blk_rq_append_bio l₁ req bio).0,
                    record req { bio = (k.blk_rq_append_bio l₁ req bio).1 },
                  ),
                  appended_bio bio (k.blk_rq_append_bio l₁ req bio).0 ∷ l₁,
                ))
                (λ _ l₁ h. inr h) _
                (bio_pieces-IsMapped whole bio length ps (u32 (0 + used)) l' small (omega arith)))
      ]
