-- ===== src/Driver/Places.antt =====
-- native-driver/nvpkt.c: where the bytes of a packet are. The device writes them to the pages of the bio,
-- and the network device reads them from the linear buffer and the fragments of the sk_buff.
pub mod Loops
pub mod Whole
mod Tests
use mathlib.Core.List.{append-nil}
use nvpkt.Base.{
  ℕ, ◌+◌, ◌-◌, ◌<◌, ◌≤◌, ◌^◌, ◌≡◌, refl, sym, ap, ◌∙◌, subst, ◌⊎◌, inl, inr, true, false, Option,
  none, some, List, [], ◌∷◌, ◌++◌, u32, u64, ltb, min, if◌then◌else◌, Bool-cases, ltb→lt, ltb→le,
  lt→ltb, arith,
}
use nvpkt.Driver.Kernel.{
  Piece, Scatterlist, Kernel, Log, Event, allocated_sgl, built_skb, filled_frag, allocated_bio,
  added_page,
}

-- Stretches of memory, each an address and a number of bytes.
abbrev pub Stretches : Type 0
Stretches = List (ℕ × ℕ)

unfoldable pub bytes : Stretches → ℕ
bytes [] = 0
bytes ((a, n) ∷ ss) = n + bytes ss

-- the address of the byte `i`
pub locate : Stretches → ℕ → Option ℕ
locate [] i = none
locate ((a, n) ∷ ss) i = if ltb i n then some (a + i) else locate ss (i - n)

-- The first are a beginning of the second: the same stretches, of which the last may be cut short.
abbrev pub Begins : Stretches → Stretches → Type 0
Begins [] ss = Unit
Begins ((a, n) ∷ ds) [] = ⊥
Begins ((a, n) ∷ ds) ((b, m) ∷ ss) = (a ≡ b) × (((n ≡ m) × Begins ds ss) ⊎ ((n ≤ m) × (ds ≡ [])))

-- Then every byte of the first is in the second, at the same place.
pub locate-Begins :
    (ds ss : Stretches) (i : ℕ) → Begins ds ss → i < bytes ds → locate ss i ≡ locate ds i
unfolding bytes locate
locate-Begins [] ss i h lt = absurd (omega arith)
locate-Begins ((a, n) ∷ ds) [] i h lt = absurd h
locate-Begins ((a, n) ∷ ds) ((b, m) ∷ ss) i (e, inl (f, h)) lt = elim (Bool-cases (ltb i n)) [
  | inl here ↦ rw (sym f, here, e) refl
  | inr later ↦ rw (sym f, later) (locate-Begins ds ss (i - n) h (omega (arith, ltb→le i n later)))
]
locate-Begins ((a, n) ∷ ds) ((b, m) ∷ ss) i (e, inr (f, h)) lt =
    let here : i < n = omega (arith, ap bytes h) in
    rw (lt→ltb i n here, lt→ltb i m (omega arith), e) refl

module _ (k : Kernel) (page_address : ℕ → ℕ) where
  -- where the network device finds the packet, after the calls of the log
  pub skb_places : Log → Stretches
  skb_places [] = []
  skb_places (allocated_sgl _ _ ∷ l) = []
  skb_places (built_skb addr size true ∷ l) = (addr, u32 (u64 (size + 2 ^ 64 - k.shared_info))) ∷ []
  skb_places (filled_frag _ page offset size ∷ l) =
      skb_places l ++ ((page_address page + offset, size) ∷ [])
  skb_places (_ ∷ l) = skb_places l

  -- where the device writes it
  unfoldable pub bio_places : Log → Stretches
  bio_places [] = []
  bio_places (allocated_sgl _ _ ∷ l) = []
  bio_places (allocated_bio _ _ ∷ l) = []
  bio_places (added_page _ page size offset added ∷ l) =
      bio_places l ++ ((page_address page + offset, added) ∷ [])
  bio_places (_ ∷ l) = bio_places l

  -- What is used of the pieces when `length` bytes are wanted, from `offset` on.
  pub used_of : (length : ℕ) → List Piece → (offset : ℕ) → Stretches
  used_of length [] offset = []
  used_of length (p ∷ ps) offset =
      let used = u32 (min p.length (length - offset)) in
      let rest = used_of length ps (u32 (offset + used)) in
      if ltb offset length then (page_address p.page + p.offset, used) ∷ rest else []

  pub used_of-over :
      (length : ℕ) (ps : List Piece) (offset : ℕ) → length ≤ offset → used_of length ps offset ≡ []
  unfolding used_of
  used_of-over length [] offset h = refl
  used_of-over length (p ∷ ps) offset h = elim (Bool-cases (ltb offset length)) [
    | inl more ↦ absurd (omega (arith, ltb→lt offset length more))
    | inr stop ↦ rw stop refl
  ]

  -- Fewer bytes use a beginning of what more bytes use.
  pub used_of-Begins :
      (less more : ℕ) (ps : List Piece) (offset : ℕ)
      → less ≤ more
      → more < 2 ^ 32
      → Begins (used_of less ps offset) (used_of more ps offset)
  unfolding used_of
  used_of-Begins less more [] offset le small = tt
  used_of-Begins less more (p ∷ ps) offset le small = elim (Bool-cases (ltb offset less)) [
    | inr stop ↦ rw stop tt
    | inl go ↦
        let h = ltb→lt offset less go in
        let u = u32 (min p.length (less - offset)) in
        let v = u32 (min p.length (more - offset)) in
        rw (go, lt→ltb offset more (omega (arith, h)))
          (
            refl,
            elim (Bool-cases (ltb less (offset + p.length))) [
              | inl cut ↦ inr (
                omega (arith, h),
                used_of-over less ps (u32 (offset + u))
                    (omega (arith, h, ltb→lt less (offset + p.length) cut)),
              )
              | inr whole ↦
                  let e : u ≡ v = omega (arith, h, ltb→le less (offset + p.length) whole) in
                  inl (e, rw⁻¹ e (used_of-Begins less more ps (u32 (offset + u)) le small))
            ],
          )
  ]
