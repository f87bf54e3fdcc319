-- ===== src/Pram/Slots.antt =====
-- userland-driver/tools/recv-to-pram.c: the 64 MB of device memory as buffers of 2048 bytes, one for
-- each slot of each receive ring.
use native.Mathlib.Nat.{mul-le-mul_right}
use nvpkt.Base.{
  ℕ, ◌+◌, ◌-◌, ◌*◌, ◌%◌, ◌^◌, ◌<◌, ◌≤◌, ◌≡◌, ◌≢◌, ◌⊎◌, inl, inr, ap, ltb, if◌then◌else◌, u64, arith,
  dec_lt,
}

-- An `int` that is added to a pointer, from its 32 bits.
abbrev pub extended : ℕ → ℕ
extended n = if ltb (n % 2 ^ 32) (2 ^ 31) then n % 2 ^ 32 else n % 2 ^ 32 + 2 ^ 64 - 2 ^ 32

-- `nmslot_to_buf`, for numbers that are not negative
unfoldable pub nmslot_to_buf : (base ri idx slot_num : ℕ) → ℕ
nmslot_to_buf base ri idx slot_num =
    u64 (u64 (base + extended (slot_num * 2048 * ri)) + extended (2048 * idx))

-- the size of the mapping
abbrev pub pram_size : ℕ
pram_size = 67108864

-- slots of earlier rings and of this one
abbrev pub slot_number : (slot_num ri idx : ℕ) → ℕ
slot_number slot_num ri idx = slot_num * ri + idx

nmslot_to_buf-number :
    (base ri idx slot_num : ℕ)
    → slot_number slot_num ri idx < 2 ^ 15
    → base + pram_size ≤ 2 ^ 64
    → nmslot_to_buf base ri idx slot_num ≡ base + 2048 * slot_number slot_num ri idx
unfolding nmslot_to_buf
nmslot_to_buf-number base ri idx slot_num few room =
    go (slot_num * ri) (slot_num * 2048 * ri) (omega arith) few
  where
    go :
        (p q : ℕ)
        → q ≡ 2048 * p
        → p + idx < 2 ^ 15
        → u64 (u64 (base + extended q) + extended (2048 * idx)) ≡ base + 2048 * (p + idx)
    go p q e h = ground arith

-- As long as all the slots of the rings before and of this one are at most 32768, the buffer of a
-- slot lies within the mapping.
pub nmslot_to_buf_inside :
    (base ri idx slot_num : ℕ)
    → idx < slot_num
    → slot_num * (ri + 1) ≤ 2 ^ 15
    → base + pram_size ≤ 2 ^ 64
    → (base ≤ nmslot_to_buf base ri idx slot_num)
      × (nmslot_to_buf base ri idx slot_num + 2048 ≤ base + pram_size)
nmslot_to_buf_inside base ri idx slot_num below few room =
    rw (nmslot_to_buf-number base ri idx slot_num (omega arith) room) (omega arith, omega arith)

earlier :
    (slot_num ri idx ri' idx' : ℕ)
    → idx < slot_num
    → ri < ri'
    → slot_number slot_num ri idx < slot_number slot_num ri' idx'
earlier slot_num ri idx ri' idx' below before =
    omega (arith, mul-le-mul_right {m = ri + 1} {n = ri'} slot_num (omega arith))

-- As long as all the slots up to those of their rings are at most 32768, the buffers of two
-- different slots do not overlap.
nmslot_to_buf_apart :
    (base slot_num ri idx ri' idx' : ℕ)
    → idx < slot_num
    → idx' < slot_num
    → slot_num * (ri + 1) ≤ 2 ^ 15
    → slot_num * (ri' + 1) ≤ 2 ^ 15
    → base + pram_size ≤ 2 ^ 64
    → (ri ≢ ri') ⊎ (idx ≢ idx')
    → (nmslot_to_buf base ri idx slot_num + 2048 ≤ nmslot_to_buf base ri' idx' slot_num)
      ⊎ (nmslot_to_buf base ri' idx' slot_num + 2048 ≤ nmslot_to_buf base ri idx slot_num)
nmslot_to_buf_apart base slot_num ri idx ri' idx' below below' few few' room ne =
    rw
      (
        nmslot_to_buf-number base ri idx slot_num (omega arith) room,
        nmslot_to_buf-number base ri' idx' slot_num (omega arith) room,
      )
      (elim (dec_lt ri ri') [
        | yes before ↦ inl (omega (arith, earlier slot_num ri idx ri' idx' below before))
        | no not_before ↦ elim (dec_lt ri' ri) [
          | yes behind ↦ inr (omega (arith, earlier slot_num ri' idx' ri idx below' behind))
          | no not_behind ↦
              let same : ri ≡ ri' = omega arith in
              let same_start : slot_num * ri ≡ slot_num * ri' = ap (λ r. slot_num * r) same in
              elim ne [
                | inl other ↦ absurd (other same)
                | inr other ↦ omega (arith, same_start, other)
              ]
        ]
      ])
