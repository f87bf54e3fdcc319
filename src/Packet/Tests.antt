-- ===== src/Packet/Tests.antt =====
-- The packets of the tools at concrete inputs.
use nvpkt.Base.{ℕ, ◌+◌, ◌*◌, ◌%◌, ◌≡◌, ◌↔◌, refl, some, true, pos, arith}
use nvpkt.Packet.{Buffer, test_addresses, store_addresses, build_frame}
use nvpkt.Packet.Frame.{parse, IsBytes, parse-build_frame}
use nvpkt.Packet.Checksum.{is_valid_header, is_valid_header-build_frame}

-- a buffer that was used before
abbrev used : Buffer
used i = (i * 7 + 3) % 256

abbrev zeroes : Buffer
zeroes _ = 0

store_addresses-IsBytes : IsBytes store_addresses
store_addresses-IsBytes = record {
  shost = (omega arith, omega arith, omega arith, omega arith, omega arith, omega arith);
  dhost = (omega arith, omega arith, omega arith, omega arith, omega arith, omega arith);
  src = (omega arith, omega arith, omega arith, omega arith);
  dst = (omega arith, omega arith, omega arith, omega arith);
}

parse-build_frame_example :
    parse (build_frame store_addresses (pos 1024) used)
    ≡ some (record { addresses = store_addresses; sport = 60000; dport = 60000; payload = 982 })
parse-build_frame_example =
    parse-build_frame store_addresses 1024 used store_addresses-IsBytes (omega arith) (omega arith)

abbrev short : ℕ
short = 1024

is_valid_header-build_frame_example :
    (is_valid_header (build_frame test_addresses (pos short) zeroes) ≡ true) ↔ (short ≡ 38633)
is_valid_header-build_frame_example =
    is_valid_header-build_frame short zeroes (omega arith) (omega arith)

-- the bytes that stand in the header of the version, and in the low byte of the length
build_frame_run :
    (build_frame test_addresses (pos 1024) used 14 ≡ 0x45)
    × (build_frame test_addresses (pos 1024) used 16 ≡ 3)
    × (build_frame test_addresses (pos 1024) used 17 ≡ 242)
unfolding build_frame
build_frame_run = (refl, refl, refl)
