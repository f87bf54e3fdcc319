-- ===== src/Driver/Bio/Audit.antt =====
-- native-driver/nvpkt.c, `blk_rq_map_from_sgl`: it ends, it does not touch the books, and after a
-- status of 0 the request has a bio.
use nvpkt.Base.{
  ℕ, zero, suc, ◌+◌, ◌-◌, min, ◌≡◌, refl, true, false, Option, some, List, [], ◌∷◌, inl, inr, u32,
  ltb, Bool-cases, Option-cases, ℤ, pos, negsuc, is_zero_ℤ,
}
use nvpkt.Driver.Kernel.{
  Piece, Scatterlist, Request, Kernel, Log, allocated_bio, added_page, appended_bio,
}
use nvpkt.Driver.Exec.{Outcome, done, enomem}
use nvpkt.Driver.Docs.{IsDocumented}
use nvpkt.Driver.Books.{Books, audit}
use nvpkt.Driver.Bio.{dma_len, bio_pieces, blk_rq_map_from_sgl}

pub is_zero_ℤ→eq : (a : ℤ) → is_zero_ℤ a ≡ true → a ≡ pos 0
is_zero_ℤ→eq (pos zero) h = refl
is_zero_ℤ→eq (pos (suc n)) h = cc
is_zero_ℤ→eq (negsuc n) h = cc

module _ (k : Kernel) where
  pub bio_pieces-audit :
      (bio length : ℕ) (pieces : List Piece) (offset : ℕ) (l : Log) {b : Books}
      → audit l ≡ some b
      → (l' : Log) × (bio_pieces k bio length pieces offset l ≡ (done tt, l')) × (audit l' ≡ some b)
  unfolding bio_pieces
  bio_pieces-audit bio length [] offset l a = (l, refl, a)
  bio_pieces-audit bio length (p ∷ ps) offset l a =
      let len = u32 (min p.length (length - offset)) in
      elim (Bool-cases (ltb offset length)) [
        | inl more ↦ rw more (
            bio_pieces-audit bio length ps (u32 (offset + len))
              (added_page bio p.page (dma_len k offset len) p.offset
                  (k.bio_add_pc_page l bio p.page (dma_len k offset len) p.offset)
                ∷ l)
              (rw a))
        | inr stop ↦ rw stop (l, refl, a)
      ]

  -- what mapping leaves: the request of before, with a bio if the status is 0
  pub record Mapped (b : Books) (req : Request) (run : Outcome (ℤ × Request) × Log) : Type 0 where
    pub ret : ℤ
    pub bio : Option ℕ
    pub log : Log
    pub runs : run ≡ (done (ret, record req { bio = bio }), log)
    pub audited : audit log ≡ some b
    pub has_bio : is_zero_ℤ ret ≡ true → (c : ℕ) × (bio ≡ some c)

  pub blk_rq_map_from_sgl-Mapped :
      (docs : IsDocumented k) (req : Request) (sgl : Scatterlist) (length : ℕ) (l : Log) {b : Books}
      → audit l ≡ some b
      → Mapped b req (blk_rq_map_from_sgl k req sgl length l)
  unfolding blk_rq_map_from_sgl
  blk_rq_map_from_sgl-Mapped docs req sgl length l {b} a =
      elim (Option-cases (k.bio_kmalloc l sgl.nents)) [
        | inl nothing ↦ rw nothing (record {
          ret = enomem;
          bio = req.bio;
          log = allocated_bio sgl.nents false ∷ l;
          runs = refl;
          audited = rw a;
          has_bio = λ h. cc;
        })
        | inr (bio, got) ↦
            let (l', e, a') =
              bio_pieces-audit bio length sgl.pieces 0 (allocated_bio sgl.nents true ∷ l) {b = b}
                (rw a) in
            rw (got, e)
              (record {
                ret = (k.blk_rq_append_bio l' req bio).0;
                bio = (k.blk_rq_append_bio l' req bio).1;
                log = appended_bio bio (k.blk_rq_append_bio l' req bio).0 ∷ l';
                runs = refl;
                audited = rw (a', audit);
                has_bio = λ h. docs.append_sets l' req bio (is_zero_ℤ→eq _ h);
              })
      ]
