-- ===== src/Driver/Skb/Length.antt =====
-- native-driver/nvpkt.c, `skb_from_sgvec`: the lengths of the sk_buff that it makes.
use nvpkt.Base.{ℕ, ◌+◌, ◌<◌, ◌^◌, ◌≡◌, refl, Option, none, some, List, [], ◌∷◌}
use nvpkt.Driver.Kernel.{Piece, Scatterlist, SkBuff, Kernel, Log}
use nvpkt.Driver.Exec.{done, Status, ok, err, enomem}
use nvpkt.Driver.Docs.{IsDocumented}
use nvpkt.Driver.Skb.{skb_pieces, skb_from_sgvec}

-- an sk_buff is made, of which `P` holds
abbrev pub IsMade : (SkBuff → Type 0) → Status (Option SkBuff) → Type 0
IsMade P (ok (some skb)) = P skb
IsMade P (ok none) = ⊥
IsMade P (err e) = ⊥

-- the first piece was refused, or an sk_buff is made, of which `P` holds
abbrev pub IsMadeOr : (SkBuff → Type 0) → Status (Option SkBuff) → Type 0
IsMadeOr P (ok (some skb)) = P skb
IsMadeOr P (ok none) = ⊥
IsMadeOr P (err e) = e ≡ enomem

pub IsMade-mono :
    {P : SkBuff → Type 0} (Q : SkBuff → Type 0)
    → ((s : SkBuff) → P s → Q s)
    → (r : Status (Option SkBuff)) → IsMade P r
    → IsMade Q r
IsMade-mono Q f (ok (some s)) p = f s p
IsMade-mono Q f (ok none) p = absurd p
IsMade-mono Q f (err e) p = absurd p

pub IsMadeOr-mono :
    {P : SkBuff → Type 0} (Q : SkBuff → Type 0)
    → ((s : SkBuff) → P s → Q s)
    → (r : Status (Option SkBuff)) → IsMadeOr P r
    → IsMadeOr Q r
IsMadeOr-mono Q f (ok (some s)) p = f s p
IsMadeOr-mono Q f (ok none) p = absurd p
IsMadeOr-mono Q f (err e) p = p

-- With the first piece `p` of `size` bytes big enough for the `skb_shared_info` behind the packet:
-- the sk_buff has all bytes but those, and its fragments all bytes behind the first piece.
abbrev pub Whole : Kernel → ℕ → Piece → SkBuff → Type 0
Whole k size p skb = (skb.len + k.shared_info ≡ size) × (skb.data_len + p.length ≡ size)

module _ (k : Kernel) (docs : IsDocumented k) (size : ℕ) (small : size < 2 ^ 32) where
  -- What the rest of the pieces adds to both lengths.
  abbrev Grew : ℕ → SkBuff → SkBuff → Type 0
  Grew offset skb skb' =
      (skb'.len + offset ≡ skb.len + size) × (skb'.data_len + offset ≡ skb.data_len + size)

-- Of a scatterlist of which nothing is wanted no sk_buff is made.
skb_pieces-empty :
    (k : Kernel) (ps : List Piece) (l : Log) → skb_pieces k 0 ps 0 0 none l ≡ (done (ok none), l)
unfolding skb_pieces
skb_pieces-empty k [] l = refl
skb_pieces-empty k (p ∷ ps) l = refl

pub skb_from_sgvec-empty :
    (k : Kernel) (sgl : Scatterlist) (size : ℕ) (l : Log)
    → size ≡ 0
    → skb_from_sgvec k sgl size l ≡ (done (ok none), l)
unfolding skb_from_sgvec
skb_from_sgvec-empty k sgl size l e = rw e (skb_pieces-empty k sgl.pieces l)
