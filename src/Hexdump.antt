-- ===== src/Hexdump.antt =====
-- `hexdump` of userland-driver/tools: load-and-xmit.c, xmit-from-pram.c, store-pkt.c, read-pkt.c and
-- dump-nvme.c have the same text; that of recv-to-pram.c ends with one more line feed.
pub mod Decode
pub mod Size
mod Tests
use nvpkt.Base.{
  ℕ, zero, suc, ◌+◌, ◌-◌, ◌/◌, ◌%◌, List, [], ◌∷◌, ◌++◌, ◌==◌, ltb, if◌then◌else◌, ℤ, pos_part,
}
use nvpkt.Packet.{Buffer}

-- a digit of `%x`, as a byte of ASCII
abbrev pub hex_digit : ℕ → ℕ
hex_digit d = if ltb d 10 then b'0' + d else b'a' + (d - 10)

-- `printf("%02x", p[n])` of an unsigned char, then the blank and the line feed
abbrev pub separator : ℕ → List ℕ
separator n =
    (if (n + 1) % 2 == 0 then 0x20 ∷ [] else []) ++ (if (n + 1) % 32 == 0 then 0x0a ∷ [] else [])

abbrev pub hex_byte : ℕ → List ℕ
hex_byte v = hex_digit (v / 16) ∷ hex_digit (v % 16) ∷ []

-- the loop from index `n` on, with its rounds left
unfoldable pub dump : Buffer → ℕ → ℕ → List ℕ
dump p n zero = []
dump p n (suc rounds) = hex_byte (p n) ++ (separator n ++ dump p (n + 1) rounds)

-- "Hex dump\n"
abbrev pub title : List ℕ
title = 0x48 ∷ 0x65 ∷ 0x78 ∷ 0x20 ∷ 0x64 ∷ 0x75 ∷ 0x6d ∷ 0x70 ∷ 0x0a ∷ []

-- What is printed, up to the final line feeds; a length below 0 makes no round.
unfoldable pub hexdump_with : List ℕ → Buffer → ℤ → List ℕ
hexdump_with final p len = title ++ (dump p 0 (pos_part len) ++ final)

unfoldable pub hexdump : Buffer → ℤ → List ℕ
unfolding hexdump_with
hexdump = hexdump_with (0x0a ∷ [])
