-- ===== src/Driver/Xmit/Count.antt =====
-- native-driver/nvpkt.c, `nvpkt_ioctl_txpkt` and `nvpkt_ioctl_txpkt_count`: what they leave in the
-- books, and what they return.
use nvpkt.Base.{
  ◌≢◌, ne→==, ℕ, zero, suc, ◌+◌, ◌<◌, ◌≤◌, ◌≡◌, refl, subst, some, to_s64, pos, ℤ, arith, ◌∷◌,
}
use nvpkt.Uapi.{Xmit, xmit_size}
use nvpkt.Driver.Kernel.{Namespace, Kernel, Log, copied_from_user}
use nvpkt.Driver.Exec.{Outcome, done, pure, Returns, Returns-mono, Returns-after}
use nvpkt.Driver.Docs.{IsDocumented}
use nvpkt.Driver.Books.{Books, audit, Settled, Settled-of, Settled-self}
use nvpkt.Driver.Xmit.Audit.{granted, txpkt_one-Settled}
use nvpkt.Driver.Xmit.{buffer_size, txpkt_one, txpkt_times, copy_xmit, txpkt, txpkt_count}

-- After `n` packets were tried: some scatterlists are left, at most one for each.
pub record Tried (b : Books) (n : ℕ) (l : Log) : Type 0 where
  pub left : ℕ
  pub few : left ≤ n
  pub settled : Settled (record b { sgls = b.sgls + left; asked = b.asked + n }) l

-- the packets of one run and then of another
pub Tried-add :
    {b : Books} {n m : ℕ} {l l' : Log} (t : Tried b n l)
    → Tried t.settled.books m l'
    → Tried b (n + m) l'
Tried-add t u = record {
  left = t.left + u.left;
  few = omega (arith, t.few, u.few);
  settled =
      Settled-of u.settled t.settled.requests t.settled.user_maps (omega (arith, t.settled.sgls))
        (omega (arith, t.settled.asked)) t.settled.skbs;
}

Tried-suc :
    {b : Books} {n : ℕ} {l l' : Log} (t : Tried b 1 l)
    → Tried t.settled.books n l'
    → Tried b (suc n) l'
Tried-suc {b} {n} {l} {l'} t u =
    let sum : 1 + n ≡ suc n = omega arith in subst (λ m. Tried b m l') sum (Tried-add t u)

module _ (k : Kernel) (ns : Namespace) (docs : IsDocumented k) (netdev : ℕ) where
  txpkt_one-Tried :
      (npr : Xmit) (l : Log) (b : Books)
      → 0 < buffer_size k npr
      → audit l ≡ some b
      → Returns (λ _ l'. Tried b 1 l') (txpkt_one k ns netdev npr l)
  txpkt_one-Tried npr l b room a =
      Returns-mono (λ _ l'. Tried b 1 l')
        (λ _ l' s. record { left = granted k ns npr l; few = ground arith; settled = s }) _
        (txpkt_one-Settled k ns docs netdev npr l room a)

  txpkt_times-Tried :
      (npr : Xmit) (n : ℕ) (l : Log) (b : Books)
      → 0 < buffer_size k npr
      → audit l ≡ some b
      → Returns (λ _ l'. Tried b n l') (txpkt_times k ns netdev npr n l)
  unfolding txpkt_times
  txpkt_times-Tried npr zero l b room a = record {
    left = 0;
    few = omega arith;
    settled = Settled-of (Settled-self a) refl refl (omega arith) (omega arith) (omega arith);
  }
  txpkt_times-Tried npr (suc n) l b room a =
      Returns-after (λ _ l'. Tried b (suc n) l') (λ _. txpkt_times k ns netdev npr n)
        (λ _ l₁ t.
          Returns-mono (λ _ l'. Tried b (suc n) l') (λ _ l' u. Tried-suc t u) _
            (txpkt_times-Tried npr n l₁ t.settled.books room t.settled.audited))
        _ (txpkt_one-Tried npr l b room a)

  pub txpkt_count-Tried :
      (arg : ℕ) (l : Log) (b : Books)
      → (k.copy_xmit l arg).0 ≡ 0
      → 0 < buffer_size k (k.copy_xmit l arg).1
      → audit l ≡ some b
      → let count = (k.copy_xmit l arg).1.count in
        Returns
          (λ r l'. (r ≡ to_s64 (count + 1)) × Tried b count l')
          (txpkt_count k ns netdev arg l)
  unfolding txpkt_count copy_xmit
  txpkt_count-Tried arg l b all room a = rw (all) (
      Returns-after (λ r l'. (r ≡ to_s64 (npr.count + 1)) × Tried b npr.count l')
        (λ _. pure (to_s64 (npr.count + 1))) (λ _ l' t. (refl, t)) _
        (txpkt_times-Tried npr npr.count (copied_from_user xmit_size ∷ l) b room (rw a)))
    where
      npr : Xmit
      npr = (k.copy_xmit l arg).1

  -- NVPKT_IOCTL_TXPKT, once the argument is copied: one packet is tried.
  pub txpkt-Tried :
      (arg : ℕ) (l : Log) (b : Books)
      → (k.copy_xmit l arg).0 ≡ 0
      → 0 < buffer_size k (k.copy_xmit l arg).1
      → audit l ≡ some b
      → Returns (λ _ l'. Tried b 1 l') (txpkt k ns netdev arg l)
  unfolding txpkt copy_xmit
  txpkt-Tried arg l b all room a =
      rw all (txpkt_one-Tried (k.copy_xmit l arg).1 (copied_from_user xmit_size ∷ l) b room (rw a))

-- A fault in copying the argument ends both requests at once with the number of bytes not copied.
pub copy_fault :
    (k : Kernel) (ns : Namespace) (netdev arg : ℕ) (l : Log)
    → (k.copy_xmit l arg).0 ≢ 0
    → let result : Outcome ℤ × Log =
        (done (pos (k.copy_xmit l arg).0), copied_from_user xmit_size ∷ l) in
      (txpkt k ns netdev arg l ≡ result) × (txpkt_count k ns netdev arg l ≡ result)
unfolding txpkt txpkt_count copy_xmit
copy_fault k ns netdev arg l fault = (rw (ne→== _ _ fault), rw (ne→== _ _ fault))
