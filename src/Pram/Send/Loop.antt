-- ===== src/Pram/Send/Loop.antt =====
-- userland-driver/tools/xmit-from-pram.c: how the loop of `main` ends.
use nvpkt.Base.{
  ℕ, zero, suc, ◌+◌, ◌*◌, ◌^◌, ◌<◌, ◌≤◌, ◌≡◌, refl, true, false, ℤ, pos, negsuc, pos_part, ltb_ℤ,
  ◌⊎◌, List, [], ◌∷◌, inl, inr, Bool-cases, lt→ltb, arith,
}
use nvpkt.Netmap.{Ring, Netmap}
use nvpkt.Pram.Send.{Txsync, Sent, unfinished, ended, fill, send_loop}

below : (n : ℕ) (count : ℤ) → ltb_ℤ (pos n) count ≡ true → n < pos_part count
below n (pos c) h = ground arith
below n (negsuc c) h = ground arith

above : (n : ℕ) (count : ℤ) → ltb_ℤ (pos n) count ≡ false → pos_part count ≤ n
above n (pos c) h = ground arith
above n (negsuc c) h = omega arith

module _ (nm : Netmap) (pktlen : ℤ) (paddr : ℕ) (txsync : Txsync) (count batch : ℤ) where
  -- why the loop ended: all packets are put, or the ring is full, or NIOCTXSYNC failed
  abbrev pub Reason : Sent → Type 0
  Reason s =
      (pos_part count ≤ s.n) ⊎ (nm.nm_ring_empty s.ring ≡ true) ⊎ (ltb_ℤ s.ret (pos 0) ≡ true)

  send_loop-Reason :
      (fuel round n k : ℕ) (ret : ℤ) (r : Ring) (synced : List Ring)
      → 0 < pos_part batch
      → pos_part count + pos_part batch ≤ fuel + n
      → n ≡ k * pos_part batch
      → n < pos_part count + pos_part batch
      → pos_part count + pos_part batch ≤ 2 ^ 31
      → (s : Sent) × (send_loop nm pktlen paddr txsync count batch fuel round n ret r synced
          ≡ ended s)
        × ((j : ℕ) × (s.n ≡ j * pos_part batch))
        × (s.n < pos_part count + pos_part batch)
        × Reason s
  unfolding send_loop
  send_loop-Reason zero round n k ret r synced some_batch enough mult small fits =
      absurd (omega arith)
  send_loop-Reason (suc fuel) round n k ret r synced some_batch enough mult small fits =
      let filled = fill nm pktlen paddr (pos_part batch) r in
      let (ret', r') = txsync round filled in
      elim (Bool-cases (ltb_ℤ (pos n) count)) [
        | inr stop ↦ rw stop (
          record { ret = ret; n = n; ring = r; synced = synced },
          refl,
          (k, mult),
          small,
          inl (above n count stop),
        )
        | inl more ↦ elim (Bool-cases (nm.nm_ring_empty r)) [
          | inl full ↦
              rw (more, full)
                (
                  record { ret = ret; n = n; ring = r; synced = synced },
                  refl,
                  (k, mult),
                  small,
                  inr (inl full),
                )
          | inr room ↦ elim (Bool-cases (ltb_ℤ ret' (pos 0))) [
            | inl failed ↦
                rw (more, room, failed)
                  (
                    record {
                      ret = ret';
                      n = n + pos_part batch;
                      ring = r';
                      synced = filled ∷ synced;
                    },
                    refl,
                    (k + 1, omega (arith, mult)),
                    (omega (arith, below n count more)),
                    inr (inr failed),
                  )
            | inr good ↦
                rw
                  (
                    more,
                    room,
                    good,
                    lt→ltb (n + pos_part batch) (2 ^ 31) (omega (arith, below n count more)),
                  )
                  (send_loop-Reason fuel (round + 1) (n + pos_part batch) (k + 1) ret' r'
                    (filled ∷ synced) some_batch (omega (arith, some_batch, enough))
                    (omega (arith, mult)) (omega (arith, below n count more)) fits)
          ]
        ]
      ]

  -- With a batch of at least 1 and a `count + batch` of at most 2^31 the loop of xmit-from-pram ends, whatever the kernel does: within
  -- `count + batch` rounds, with a whole number of batches put into the ring and less than a batch
  -- more than `count`; and it ends because `count` is reached, the ring has no slot left, or
  -- NIOCTXSYNC failed.
  pub send_loop_lem :
      (ret : ℤ) (r : Ring)
      → 0 < pos_part batch
      → pos_part count + pos_part batch ≤ 2 ^ 31
      → (s : Sent) × (send_loop nm pktlen paddr txsync count batch
            (pos_part count + pos_part batch)
            0
            0
            ret
            r
            []
          ≡ ended s)
        × ((j : ℕ) × (s.n ≡ j * pos_part batch))
        × (s.n < pos_part count + pos_part batch)
        × Reason s
  send_loop_lem ret r some_batch fits =
      send_loop-Reason (pos_part count + pos_part batch) 0 0 0 ret r [] some_batch (omega arith)
        (omega arith) (omega arith) fits

  -- With a batch of 0 or less, a count of at least 1, a ring with room and a kernel whose
  -- NIOCTXSYNC succeeds and leaves room in the ring, the loop of xmit-from-pram has no end.
  pub send_loop-none :
      (fuel round : ℕ) (ret : ℤ) (r : Ring) (synced : List Ring)
      → pos_part batch ≡ 0
      → 0 < pos_part count
      → nm.nm_ring_empty r ≡ false
      → ((i : ℕ) (r' : Ring) → ltb_ℤ (txsync i r').0 (pos 0) ≡ false)
      → ((i : ℕ) (r' : Ring) → nm.nm_ring_empty (txsync i r').1 ≡ false)
      → send_loop nm pktlen paddr txsync count batch fuel round 0 ret r synced ≡ unfinished
  unfolding send_loop
  send_loop-none zero round ret r synced no_batch some_count room good keeps = refl
  send_loop-none (suc fuel) round ret r synced no_batch some_count room good keeps =
      rw (more count some_count, room, good, no_batch)
        (send_loop-none fuel (round + 1) _ _ _ no_batch some_count (keeps _ _) good keeps)
    where
      more : (count : ℤ) → 0 < pos_part count → ltb_ℤ (pos 0) count ≡ true
      more (pos c) h = ground arith
      more (negsuc c) h = absurd (omega arith)
