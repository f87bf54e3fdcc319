-- ===== src/Args/Numbers.antt =====
-- atoi and strtol of the C library, on a machine with `long` of 64 bits.
use nvpkt.Base.{
  ℕ, ◌+◌, ◌-◌, ◌*◌, ◌^◌, min, Bool, ◌&&◌, ◌||◌, [], ◌∷◌, drop, false, ltb, leb, ◌==◌, if◌then◌else◌,
  ℤ, pos, negsuc, to_s32,
}
use nvpkt.Args.{Text}

-- isspace
abbrev pub is_space : ℕ → Bool
is_space c = c == 32 || (leb 9 c && leb c 13)

unfoldable pub strip : Text → Text
strip [] = []
strip (c ∷ cs) = let rest = strip cs in if is_space c then rest else c ∷ cs

-- the value of a digit; 36 for any other byte
abbrev pub digit_value : ℕ → ℕ
digit_value c =
    if leb b'0' c && leb c b'9'
    then c - b'0'
    else if leb b'a' c && leb c b'z'
    then c - b'a' + 10
    else if leb b'A' c && leb c b'Z'
    then c - b'A' + 10
    else 36

-- the digits at the front
unfoldable pub digits : (base acc : ℕ) → Text → ℕ
digits base acc [] = acc
digits base acc (c ∷ cs) =
    let rest = digits base (acc * base + digit_value c) cs in
    if ltb (digit_value c) base then rest else acc

-- Base 0 looks at the front: 0x and a digit of base 16, or 0, or neither.
abbrev pub is_hex : Text → Bool
is_hex [] = false
is_hex (c ∷ []) = false
is_hex (c ∷ d ∷ []) = false
is_hex (c ∷ d ∷ e ∷ cs) = c == b'0' && (d == b'x' || d == b'X') && ltb (digit_value e) 16

abbrev pub is_octal : Text → Bool
is_octal [] = false
is_octal (c ∷ cs) = c == b'0'

abbrev pub base_of : (base : ℕ) → Text → ℕ
base_of base s = if base == 0 then (if is_hex s then 16 else if is_octal s then 8 else 10) else base

unfoldable pub unsigned_value : (base : ℕ) → Text → ℕ
unsigned_value base s = digits (base_of base s) 0 (if base == 0 && is_hex s then drop 2 s else s)

-- A value out of range is LONG_MAX or LONG_MIN.
abbrev pub negative : ℕ → ℤ
negative n = if n == 0 then pos 0 else negsuc (min (n - 1) (2 ^ 63 - 1))

abbrev pub signed_value : (base : ℕ) → Text → ℤ
signed_value base [] = pos 0
signed_value base (c ∷ cs) =
    if c == b'-'
    then negative (unsigned_value base cs)
    else if c == b'+'
    then pos (min (unsigned_value base cs) (2 ^ 63 - 1))
    else pos (min (unsigned_value base (c ∷ cs)) (2 ^ 63 - 1))

unfoldable pub strtol : (base : ℕ) → Text → ℤ
strtol base s = signed_value base (strip s)

-- `(int)strtol(s, NULL, 10)`
unfoldable pub atoi : Text → ℤ
atoi s = to_s32 (strtol 10 s)
