-- ===== src/Hexdump/Tests.antt =====
-- The dump of a short buffer.
use nvpkt.Base.{ℕ, ◌+◌, ◌*◌, ◌%◌, ◌<◌, ◌≡◌, refl, [], ◌∷◌, ◌++◌, pos, arith}
use nvpkt.Packet.{Buffer}
use nvpkt.Hexdump.{hexdump, hexdump_with, dump, title}

abbrev counting : Buffer
counting i = (i * 17 + 10) % 256

counting_small : (i : ℕ) → counting i < 256
counting_small i = omega arith

-- 0a1b 2c
hexdump_run :
    hexdump counting (pos 3) ≡ title ++ (0x30 ∷ 0x61 ∷ 0x31 ∷ 0x62 ∷ 0x20 ∷ 0x32 ∷ 0x63 ∷ 0x0a ∷ [])
unfolding hexdump hexdump_with dump
hexdump_run = refl
