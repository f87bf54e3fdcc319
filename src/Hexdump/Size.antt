-- ===== src/Hexdump/Size.antt =====
-- How much a dump prints.
use nvpkt.Base.{
  ℕ, zero, suc, ◌+◌, ◌*◌, ◌/◌, ◌≡◌, [], ◌∷◌, length, length-append, ℤ, pos_part, arith,
}
use nvpkt.Packet.{Buffer}
use nvpkt.Hexdump.{separator, dump, hexdump}

length-separator : (n : ℕ) → length (separator n) + n / 2 + n / 32 ≡ (n + 1) / 2 + (n + 1) / 32
length-separator n = ground arith

length-dump :
    (p : Buffer) (n k : ℕ)
    → length (dump p n k) + n / 2 + n / 32 ≡ 2 * k + (n + k) / 2 + (n + k) / 32
unfolding dump
length-dump p n zero = omega arith
length-dump p n (suc k) = omega (
  arith,
  length-separator n,
  length-append (separator n) (dump p (n + 1) k),
  length-dump p (n + 1) k,
)

-- Two digits for each byte, a blank behind every second and a line feed behind every 32nd, between
-- the title of nine bytes and the last line feed.
pub length-hexdump :
    (p : Buffer) (len : ℤ)
    → let k = pos_part len in length (hexdump p len) ≡ 9 + (2 * k + k / 2 + k / 32) + 1
unfolding hexdump
length-hexdump p len =
    omega
      (arith, length-append (dump p 0 (pos_part len)) (0x0a ∷ []), length-dump p 0 (pos_part len))
