-- ===== src/Driver/Places/Whole.antt =====
-- native-driver/nvpkt.c, `nvpkt_ioctl_txpkt_one`: where the packet is written and where it is read.
use nvpkt.Base.{
  ℕ, ◌+◌, ◌-◌, ◌<◌, ◌≤◌, ◌^◌, ◌≡◌, refl, sym, subst, true, Option, none, some, List, [], ◌∷◌, u32,
  u64, ltb, min, Bool-cases, Option-cases, inl, inr, ltb→lt, ltb→le, ℤ, arith, ◌⊎◌, is_zero_ℤ,
}
use nvpkt.Uapi.{Xmit}
use nvpkt.Driver.Kernel.{
  Piece, Scatterlist, SkBuff, Request, Namespace, Kernel, Log, allocated_sgl, allocated_request,
  set_bio_disk,
}
use nvpkt.Driver.Exec.{Outcome, done, oops, M, after, Status, ok, err, Returns}
use nvpkt.Driver.Docs.{IsDocumented, AddsWhole, total-pos}
use nvpkt.Driver.Bio.{dma_len, blk_rq_map_from_sgl}
use nvpkt.Driver.Xmit.{
  is_cancelled, put_request, alloc_request, execute, transmit, txpkt_run, txpkt_execute, txpkt_map,
  txpkt_request, txpkt_built, read_command, buffer_size, txpkt_one,
}
use nvpkt.Driver.Places.{
  Stretches, bytes, locate, Begins, locate-Begins, skb_places, bio_places, used_of, used_of-over,
  used_of-Begins,
}
use nvpkt.Driver.Places.Loops.{
  IsOver, skb_from_sgvec-IsOver, IsMapped, blk_rq_map_from_sgl-IsMapped,
}

-- what the log of a run satisfies, if what its first part returns leads to it
after-log :
    {A B : Type 0} {P : A → Log → Type 0} (Q : Log → Type 0) (f : A → M B)
    → ((a : A) (l : Log) → P a l → Q (f a l).1)
    → (run : Outcome A × Log) → Returns P run
    → Q (after f run).1
after-log Q f rule (done a, l) p = rule a l p
after-log Q f rule (oops, l) p = absurd p

-- What is documented of the first piece of a scatterlist: it is mapped where its page is, and has a page
-- or all bytes that were asked for, so that an skb_shared_info fits.
pub record IsPaged (k : Kernel) (page_address : ℕ → ℕ) : Type 0 where
  pub addr :
      (l : Log) (n : ℕ) (s : Scatterlist) (p : Piece) (ps : List Piece)
      → k.sgl_alloc l n ≡ some s
      → s.pieces ≡ p ∷ ps
      → p.addr ≡ page_address p.page + p.offset
  pub room :
      (l : Log) (n : ℕ) (s : Scatterlist) (p : Piece) (ps : List Piece)
      → k.sgl_alloc l n ≡ some s
      → s.pieces ≡ p ∷ ps
      → k.shared_info ≤ n
      → k.shared_info ≤ p.length

module _ (k : Kernel) (page_address : ℕ → ℕ) (npr : Xmit) (some_info : 0 < k.shared_info)
    (big : k.shared_info ≤ npr.len) (small : npr.len + k.shared_info < 2 ^ 32) where
  abbrev IsSame : Log → Type 0
  IsSame l = Begins (bio_places k page_address l) (skb_places k page_address l)

  -- what the two loops use, over the same pieces
  skb_stretches : Piece → List Piece → Stretches
  skb_stretches p ps =
      let used = u32 (min p.length (buffer_size k npr - 0)) in
      (p.addr, u32 (u64 (used + 2 ^ 64 - k.shared_info)))
      ∷ used_of k page_address (buffer_size k npr) ps (u32 (0 + used))

  bio_stretches : Piece → List Piece → Stretches
  bio_stretches p ps =
      let used = u32 (min p.length (npr.len - 0)) in
      (page_address p.page + p.offset, dma_len k 0 used)
      ∷ used_of k page_address npr.len ps (u32 (0 + used))

  bio_stretches-Begins :
      (p : Piece) (ps : List Piece)
      → p.addr ≡ page_address p.page + p.offset
      → k.shared_info ≤ p.length
      → Begins (bio_stretches p ps) (skb_stretches p ps)
  unfolding skb_stretches bio_stretches
  bio_stretches-Begins p ps at room = (
    sym at,
    elim (Bool-cases (ltb npr.len p.length)) [
      | inl cut ↦ inr (
        omega (arith, ltb→lt npr.len p.length cut),
        used_of-over k page_address npr.len ps (u32 (0 + u32 (min p.length (npr.len - 0))))
            (omega (arith, ltb→lt npr.len p.length cut)),
      )
      | inr whole ↦
          let le = ltb→le npr.len p.length whole in
          let e : u32 (min p.length (npr.len - 0)) ≡ u32 (min p.length (buffer_size k npr - 0)) =
            omega (arith, le) in
          inl (
            omega (arith, le),
            subst
                (λ u.
                  Begins
                    (used_of k page_address npr.len ps (u32 (0 + u32 (min p.length (npr.len - 0)))))
                    (used_of k page_address (buffer_size k npr) ps (u32 (0 + u))))
                e
                (used_of-Begins k page_address npr.len (buffer_size k npr) ps _ (omega arith)
                  (omega arith)),
          )
    ],
  )

  module _ (ns : Namespace) (whole : AddsWhole k) where
    txpkt_execute-IsSame :
        (skb : SkBuff) (req : Request) (l : Log)
        → IsSame l
        → IsSame (txpkt_execute k ns skb req l).1
    unfolding txpkt_execute txpkt_run put_request execute transmit skb_places bio_places
    txpkt_execute-IsSame skb req l same = elim (Option-cases req.bio) [
      | inl e ↦ rw e same
      | inr (bio, e) ↦
          rw e
            (elim (Bool-cases (
              is_cancelled
                (k.blk_execute_rq (set_bio_disk bio ns.disk ∷ l)
                  (record req { timeout = k.admin_timeout; bio = some bio })).0)) [
                    | inl cancelled ↦ rw cancelled same
                    | inr finished ↦ rw finished same
                  ])
    ]

    -- after the mapping
    mapped-IsSame :
        (sgl : Scatterlist) (skb : SkBuff) (p : Piece) (ps : List Piece) (l : Log)
        → Begins (bio_stretches p ps) (skb_places k page_address l)
        → (mapped : ℤ × Request) (l' : Log)
        → IsMapped k page_address l [] l' ⊎ IsMapped k page_address l (bio_stretches p ps) l'
        → IsSame l'
    unfolding bio_stretches
    mapped-IsSame sgl skb p ps l begins mapped l' (inl (skbs, bios)) = rw (skbs, bios) tt
    mapped-IsSame sgl skb p ps l begins mapped l' (inr (skbs, bios)) = rw (skbs, bios) begins

    txpkt_map-IsSame :
        (sgl : Scatterlist) (skb : SkBuff) (req : Request) (p : Piece) (ps : List Piece) (l : Log)
        → sgl.pieces ≡ p ∷ ps
        → 0 < p.length
        → Begins (bio_stretches p ps) (skb_places k page_address l)
        → IsSame (txpkt_map k ns npr sgl skb req l).1
    unfolding txpkt_map put_request skb_places bio_places bio_stretches
    txpkt_map-IsSame sgl skb req p ps l e first begins =
        after-log {A = ℤ × Request} IsSame _
          (λ mapped l' m.
            let same = mapped-IsSame sgl skb p ps l begins mapped l' m in
            elim (Bool-cases (is_zero_ℤ mapped.0)) [
              | inl zero_status ↦ rw zero_status (txpkt_execute-IsSame skb mapped.1 l' same)
              | inr failed ↦ rw failed same
            ])
          (blk_rq_map_from_sgl k req sgl npr.len l)
          (blk_rq_map_from_sgl-IsMapped k page_address whole npr.len req sgl p ps l e (omega arith)
            (omega arith) first)

    txpkt_request-IsSame :
        (netdev : ℕ) (sgl : Scatterlist) (skb : SkBuff) (p : Piece) (ps : List Piece) (l : Log)
        → sgl.pieces ≡ p ∷ ps
        → 0 < p.length
        → Begins (bio_stretches p ps) (skb_places k page_address l)
        → bio_places k page_address l ≡ []
        → IsSame (txpkt_request k ns netdev npr sgl skb l).1
    unfolding txpkt_request alloc_request skb_places bio_places
    txpkt_request-IsSame netdev sgl skb p ps l e first begins none_yet =
        go (k.nvme_alloc_request l (read_command ns npr)) refl
      where
        go :
            (r : ℤ ⊎ Request)
            → k.nvme_alloc_request l (read_command ns npr) ≡ r
            → IsSame (txpkt_request k ns netdev npr sgl skb l).1
        go (inl x) eq = rw (eq, none_yet) tt
        go (inr req) eq = rw eq (
            txpkt_map-IsSame sgl (k.skb_set_mac_header (record skb { dev = netdev }) 0) req p ps
              (allocated_request (read_command ns npr) true ∷ l) e first begins)

    built-IsSame :
        (netdev : ℕ) (sgl : Scatterlist) (p : Piece) (ps : List Piece)
        → sgl.pieces ≡ p ∷ ps
        → p.addr ≡ page_address p.page + p.offset
        → k.shared_info ≤ p.length
        → (built : Status (Option SkBuff)) (l : Log)
        → IsOver k page_address (skb_stretches p ps) built l
        → IsSame (txpkt_built k ns netdev npr sgl built l).1
    built-IsSame netdev sgl p ps e at room (ok (some skb)) l (skbs, none_yet) =
        txpkt_request-IsSame netdev sgl skb p ps l e (omega arith)
          (rw skbs (bio_stretches-Begins p ps at room)) none_yet
    built-IsSame netdev sgl p ps e at room (ok none) l none_yet = rw none_yet tt
    built-IsSame netdev sgl p ps e at room (err x) l none_yet = rw none_yet tt

    txpkt_one-IsSame :
        (docs : IsDocumented k) (paged : IsPaged k page_address) (netdev : ℕ) (l : Log)
        → IsSame (txpkt_one k ns netdev npr l).1
    unfolding txpkt_one skb_places bio_places skb_stretches
    txpkt_one-IsSame docs paged netdev l =
        let size = buffer_size k npr in
        elim (Option-cases (k.sgl_alloc l size)) [
          | inl refused ↦ rw refused tt
          | inr (sgl, got) ↦
              let (p, ps, e) =
                total-pos sgl.pieces (rw (docs.sgl_total l size sgl got) (omega arith)) in
              let room = paged.room l size sgl p ps got e (omega arith) in
              let at = paged.addr l size sgl p ps got e in
              rw got (
                after-log {A = Status (Option SkBuff)} IsSame (txpkt_built k ns netdev npr sgl)
                  (built-IsSame netdev sgl p ps e at room) _
                  (skb_from_sgvec-IsOver k page_address size sgl p ps (allocated_sgl size true ∷ l)
                    e (omega arith) refl))
        ]

    -- For a packet that is not smaller than an skb_shared_info and, with it, below 2^32 bytes, over
    -- a kernel within its documentation whose scatterlists start with a piece that is mapped where
    -- its page is and has room for an skb_shared_info, and when bio_add_pc_page adds every page
    -- whole: when NVPKT_IOCTL_TXPKT has run, on whatever path, each byte that the device was told
    -- to write, in the order of the pages of the bio, is at the place where the network device
    -- finds the byte of that number in the buffer and the fragments of the sk_buff.
    pub txpkt_one-locate :
        (docs : IsDocumented k) (paged : IsPaged k page_address) (netdev : ℕ) (l : Log) (i : ℕ)
        → let l' = (txpkt_one k ns netdev npr l).1 in
          i < bytes (bio_places k page_address l')
          → locate (skb_places k page_address l') i ≡ locate (bio_places k page_address l') i
    txpkt_one-locate docs paged netdev l i within =
        locate-Begins _ _ i (txpkt_one-IsSame docs paged netdev l) within
