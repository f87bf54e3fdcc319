-- ===== src/Driver/Places/Tests.antt =====
-- Where the bytes of a packet are, on a small kernel that grants everything.
use mathlib.Core.Option.{some-injective}
use nvpkt.Base.{
  ℕ, ap, ◌∙◌, subst, List, ◌*◌, ◌≤◌, ◌+◌, ◌-◌, ◌^◌, ◌≡◌, refl, true, none, some, [], ◌∷◌, pos,
  arith,
}
use nvpkt.Driver.Kernel.{Piece, Scatterlist, allocated_bio, added_page, appended_bio}
use nvpkt.Driver.Sample.{piece, sgl_of, packet, sample, sample-IsDocumented, sample-AddsWhole, ssd}
use nvpkt.Driver.Skb.{first_piece, later_piece, skb_pieces, skb_from_sgvec}
use nvpkt.Driver.Bio.{bio_pieces, blk_rq_map_from_sgl}
use nvpkt.Driver.Xmit.{
  txpkt_one, txpkt_request, txpkt_map, txpkt_execute, txpkt_run, put_request, alloc_request,
  execute, transmit,
}
use nvpkt.Driver.Places.{bytes, locate, skb_places, bio_places}
use nvpkt.Driver.Places.Whole.{IsPaged, txpkt_one-locate}

first_or : Piece → List Piece → Piece
first_or q [] = q
first_or q (p ∷ ps) = p

sample-first :
    (n : ℕ) (s : Scatterlist) (p : Piece) (ps : List Piece)
    → some (sgl_of n) ≡ some s
    → s.pieces ≡ p ∷ ps
    → piece n ≡ p
unfolding first_or
sample-first n s p ps got e =
    ap (λ t. first_or (piece n) t.pieces) (some-injective _ _ got) ∙ ap (first_or (piece n)) e

sample-IsPaged : IsPaged sample (λ n. n * 4096)
sample-IsPaged = record {
  addr = λ l n s p ps got e.
      subst (λ q. q.addr ≡ q.page * 4096 + q.offset) (sample-first n s p ps got e) refl;
  room = λ l n s p ps got e le. subst (λ q. 320 ≤ q.length) (sample-first n s p ps got e) le;
}

mapped_run : bytes (bio_places sample (λ n. n * 4096) (txpkt_one sample ssd 2 packet []).1) ≡ 704
unfolding txpkt_one txpkt_request txpkt_map txpkt_execute txpkt_run put_request alloc_request
    execute transmit skb_from_sgvec skb_pieces first_piece later_piece blk_rq_map_from_sgl
    bio_pieces bio_places bytes
mapped_run = refl

-- Byte 700 is one of the 704 that the device writes.
txpkt_one-locate_example :
    let l = (txpkt_one sample ssd 2 packet []).1 in
    locate (skb_places sample (λ n. n * 4096) l) 700
    ≡ locate (bio_places sample (λ n. n * 4096) l) 700
txpkt_one-locate_example =
    txpkt_one-locate sample (λ n. n * 4096) packet (omega arith) (omega arith) (omega arith) ssd
      sample-AddsWhole sample-IsDocumented sample-IsPaged 2 [] 700 (omega (arith, mapped_run))

-- Of a packet of 100 bytes the device may write almost 4 GB of the first page.
tiny_run :
    (blk_rq_map_from_sgl sample
      (record { tag = 5; timeout = 0; flags = 0; bio = none })
      (sgl_of 420)
      100
      []).1
    ≡ appended_bio 9 (pos 0)
      ∷ added_page 9 16 (2 ^ 32 - 220) 0 (2 ^ 32 - 220)
      ∷ allocated_bio 1 true
      ∷ []
unfolding blk_rq_map_from_sgl bio_pieces
tiny_run = refl
