-- ===== src/Args/Print.antt =====
-- Numbers as a user writes them, and what atoi and strtol read of them.
use nvpkt.Base.{
  ℕ, zero, suc, ◌+◌, ◌-◌, ◌*◌, ◌/◌, ◌%◌, ◌^◌, ◌<◌, ◌≤◌, ◌≡◌, refl, sym, ap, ◌∙◌, min, true, false,
  [], ◌∷◌, ltb, ◌==◌, if◌then◌else◌, pos, to_s32, ◌⊎◌, inl, inr, Bool-cases, arith,
}
use nvpkt.Args.{Text}
use nvpkt.Args.Numbers.{is_space, is_hex, strip, digit_value, digits, unsigned_value, strtol, atoi}

-- the digits of a number in front of a text, with fuel
abbrev pub digits_from : (fuel n : ℕ) → Text → Text
digits_from zero n acc = (b'0' + n % 10) ∷ acc
digits_from (suc fuel) n acc =
    let rest = digits_from fuel (n / 10) ((b'0' + n % 10) ∷ acc) in
    if ltb n 10 then (b'0' + n) ∷ acc else rest

unfoldable pub decimal : ℕ → Text
decimal n = digits_from n n []

digits-cons :
    (acc d : ℕ) (cs : Text) → d < 10 → digits 10 acc ((b'0' + d) ∷ cs) ≡ digits 10 (acc * 10 + d) cs
unfolding digits
digits-cons acc d cs h =
    let value : digit_value (b'0' + d) ≡ d = ground arith in
    let test : ltb d 10 ≡ true = ground arith in rw (value, test) refl

digits-digits_from :
    (fuel n : ℕ) (cs : Text) → n ≤ fuel → digits 10 0 (digits_from fuel n cs) ≡ digits 10 n cs
digits-digits_from zero n cs h =
    digits-cons 0 (n % 10) cs (omega arith) ∙ ap (λ m. digits 10 m cs) (omega arith)
digits-digits_from (suc fuel) n cs h = elim (Bool-cases (ltb n 10)) [
  | inl small ↦
      rw small (digits-cons 0 n cs (ground arith) ∙ ap (λ m. digits 10 m cs) (omega arith))
  | inr more ↦ rw more (
      digits-digits_from fuel (n / 10) ((b'0' + n % 10) ∷ cs) (omega arith)
      ∙ digits-cons (n / 10) (n % 10) cs (omega arith)
      ∙ ap (λ m. digits 10 m cs) (omega arith))
]

-- The first digit is not 0, unless the number is.
digits_from-head :
    (fuel n : ℕ) (cs : Text)
    → n ≤ fuel
    → 0 < n
    → (h : ℕ) × (ds : Text) × (digits_from fuel n cs ≡ (b'0' + h) ∷ ds) × (0 < h) × (h < 10)
digits_from-head zero n cs enough some = absurd (omega arith)
digits_from-head (suc fuel) n cs enough some = elim (Bool-cases (ltb n 10)) [
  | inl small ↦ (n, cs, rw small refl, some, ground arith)
  | inr more ↦
      rw more (digits_from-head fuel (n / 10) ((b'0' + n % 10) ∷ cs) (omega arith) (ground arith))
]

abbrev IsDecimal : ℕ → Type 0
IsDecimal base = (base ≡ 0) ⊎ (base ≡ 10)

not_hex : (h : ℕ) (ds : Text) → 0 < h → h < 10 → is_hex ((b'0' + h) ∷ ds) ≡ false
not_hex h [] some small = refl
not_hex h (d ∷ []) some small = refl
not_hex h (d ∷ e ∷ ds) some small = ground arith

-- In base 10, and in base 0 where the first digit is not 0, the digits are decimal.
unsigned_value-decimal :
    (base h : ℕ) (ds : Text)
    → IsDecimal base
    → 0 < h
    → h < 10
    → unsigned_value base ((b'0' + h) ∷ ds) ≡ digits 10 0 ((b'0' + h) ∷ ds)
unfolding unsigned_value
unsigned_value-decimal base h ds (inl e) some small =
    let first : ((b'0' + h) == b'0') ≡ false = ground arith in
    rw (e, not_hex h ds some small, first) refl
unsigned_value-decimal base h ds (inr e) some small = rw e refl

unsigned_value-zero : (base : ℕ) → IsDecimal base → unsigned_value base (b'0' ∷ []) ≡ 0
unfolding unsigned_value digits
unsigned_value-zero base (inl e) = rw e refl
unsigned_value-zero base (inr e) = rw e refl

digits-nil : (n : ℕ) → digits 10 n [] ≡ n
unfolding digits
digits-nil n = refl

-- It is no space and no sign that stands in front.
strtol-digit :
    (base h : ℕ) (ds : Text)
    → h < 10
    → strtol base ((b'0' + h) ∷ ds) ≡ pos (min (unsigned_value base ((b'0' + h) ∷ ds)) (2 ^ 63 - 1))
unfolding strtol strip
strtol-digit base h ds small =
    let space : is_space (b'0' + h) ≡ false = ground arith in
    let minus : ((b'0' + h) == b'-') ≡ false = ground arith in
    let plus : ((b'0' + h) == b'+') ≡ false = ground arith in rw (space, minus, plus) refl

-- In base 10 and in base 0 strtol reads a number below 2^63 back from its decimal digits.
pub strtol-decimal : (base n : ℕ) → IsDecimal base → n < 2 ^ 63 → strtol base (decimal n) ≡ pos n
unfolding decimal
strtol-decimal base zero b small =
    strtol-digit base 0 [] (omega arith) ∙ rw (unsigned_value-zero base b) refl
strtol-decimal base (suc n) b small =
    let (h, ds, e, some, digit) = digits_from-head (suc n) (suc n) [] (omega arith) (omega arith) in
    let whole : digits 10 0 ((b'0' + h) ∷ ds) ≡ suc n =
      ap (digits 10 0) (sym e)
      ∙ digits-digits_from (suc n) (suc n) [] (omega arith)
      ∙ digits-nil (suc n) in
    ap (strtol base) e
    ∙ strtol-digit base h ds digit
    ∙ ap (λ m. pos (min m (2 ^ 63 - 1))) (unsigned_value-decimal base h ds b some digit ∙ whole)
    ∙ ap pos (omega arith)

-- atoi reads a number below 2^31 back from its decimal digits.
pub atoi-decimal : (n : ℕ) → n < 2 ^ 31 → atoi (decimal n) ≡ pos n
unfolding atoi
atoi-decimal n small = ap to_s32 (strtol-decimal 10 n (inr refl) (omega arith)) ∙ ground arith
