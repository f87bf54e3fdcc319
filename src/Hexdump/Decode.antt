-- ===== src/Hexdump/Decode.antt =====
-- A dump can be read back: a decoder of hexadecimal text, independent of the printer, recovers the
-- bytes.
use mathlib.Core.List.{append_assoc, append-nil}
use nvpkt.Base.{
  ℕ, zero, suc, ◌+◌, ◌-◌, ◌*◌, ◌/◌, ◌%◌, ◌<◌, ◌≡◌, refl, ap, ◌∙◌, List, [], ◌∷◌, ◌++◌, Option, none,
  some, ◌==◌, ltb, if◌then◌else◌, ◌||◌, ℤ, pos_part, Bool-cases, inl, inr, arith,
}
use nvpkt.Packet.{Buffer}
use nvpkt.Hexdump.{hex_digit, hex_byte, separator, dump, title, hexdump}

-- the value of a digit
abbrev pub digit : ℕ → ℕ
digit c = if ltb c b'a' then c - b'0' else c - b'a' + 10

-- Blanks and line feeds are skipped; `high` is the first digit of a pair.
pub decode : Option ℕ → List ℕ → List ℕ
decode high [] = []
decode none (c ∷ cs) =
    let skipped = decode none cs in
    let begun = decode (some (digit c)) cs in if c == 0x20 || c == 0x0a then skipped else begun
decode (some h) (c ∷ cs) = (h * 16 + digit c) ∷ decode none cs

-- the bytes of the buffer from index `n` on
abbrev pub bytes : Buffer → ℕ → ℕ → List ℕ
bytes p n zero = []
bytes p n (suc k) = p n ∷ bytes p (n + 1) k

digit-hex_digit : (d : ℕ) → d < 16 → digit (hex_digit d) ≡ d
digit-hex_digit d h = ground arith

decode-separator : (n : ℕ) (cs : List ℕ) → decode none (separator n ++ cs) ≡ decode none cs
unfolding decode
decode-separator n cs = elim (Bool-cases ((n + 1) % 2 == 0)) [
  | inl even ↦ elim (Bool-cases ((n + 1) % 32 == 0)) [
    | inl full ↦ rw (even, full)
    | inr more ↦ rw (even, more)
  ]
  | inr odd ↦ elim (Bool-cases ((n + 1) % 32 == 0)) [
    | inl full ↦ rw (odd, full)
    | inr more ↦ rw (odd, more)
  ]
]

decode-hex_byte :
    (v : ℕ) (cs : List ℕ) → v < 256 → decode none (hex_byte v ++ cs) ≡ v ∷ decode none cs
unfolding decode
decode-hex_byte v cs h = ground (arith, digit-hex_digit (v / 16), digit-hex_digit (v % 16))

-- Every byte comes back, in order, between the separators and before whatever follows.
decode-dump :
    (p : Buffer) (n k : ℕ) (cs : List ℕ)
    → ((i : ℕ) → p i < 256)
    → decode none (dump p n k ++ cs) ≡ bytes p n k ++ decode none cs
unfolding dump
decode-dump p n zero cs h = refl
decode-dump p n (suc k) cs h =
    decode-hex_byte (p n) ((separator n ++ dump p (n + 1) k) ++ cs) (h n)
    ∙ ap (λ r. p n ∷ r)
        (ap (decode none) (append_assoc (separator n) (dump p (n + 1) k) cs)
          ∙ decode-separator n (dump p (n + 1) k ++ cs)
          ∙ decode-dump p (n + 1) k cs h)

-- Behind its title, the dump of a buffer of bytes reads back as the first `len` of them; a length
-- below 0 gives none.
pub decode-hexdump :
    (p : Buffer) (len : ℤ)
    → ((i : ℕ) → p i < 256)
    → (body : List ℕ) × (hexdump p len ≡ title ++ body)
      × (decode none body ≡ bytes p 0 (pos_part len))
unfolding hexdump decode
decode-hexdump p len h = (
  dump p 0 (pos_part len) ++ (0x0a ∷ []),
  refl,
  decode-dump p 0 (pos_part len) (0x0a ∷ []) h ∙ append-nil (bytes p 0 (pos_part len)),
)
