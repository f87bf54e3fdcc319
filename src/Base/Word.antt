-- ===== src/Base/Word.antt =====
-- The unsigned types of C: a value is a number, and an operation wraps it by the type's width.
use Prim.Native.Nat.{ℕ, ◌-◌, ◌%◌, ◌^◌}
use nvpkt.Base.Int.{ℤ, pos, negsuc}
use nvpkt.Base.Tests.{ltb, if◌then◌else◌}

abbrev pub u8 : ℕ → ℕ
u8 n = n % 2 ^ 8

abbrev pub u16 : ℕ → ℕ
u16 n = n % 2 ^ 16

abbrev pub u32 : ℕ → ℕ
u32 n = n % 2 ^ 32

abbrev pub u64 : ℕ → ℕ
u64 n = n % 2 ^ 64

-- The conversion of a signed value to `unsigned long`.
abbrev pub to_u64 : ℤ → ℕ
to_u64 (pos n) = n % 2 ^ 64
to_u64 (negsuc n) = (2 ^ 64 - 1 - n % 2 ^ 64) % 2 ^ 64

-- The conversion of an `unsigned long` to `long`.
abbrev pub to_s64 : ℕ → ℤ
to_s64 n = if ltb (n % 2 ^ 64) (2 ^ 63) then pos (n % 2 ^ 64) else negsuc (2 ^ 64 - 1 - n % 2 ^ 64)

-- The conversions to `int`, of an unsigned value and of a `long`: the low 32 bits.
abbrev pub int_of : ℕ → ℤ
int_of n = if ltb (u32 n) (2 ^ 31) then pos (u32 n) else negsuc (2 ^ 32 - 1 - u32 n)

abbrev pub to_s32 : ℤ → ℤ
to_s32 (pos n) = int_of n
to_s32 (negsuc n) = int_of (to_u64 (negsuc n))
