-- ===== src/Packet/Checksum.antt =====
-- The checksum of the IP header, which the tools leave at 0.
use nvpkt.Base.{ℕ, ◌+◌, ◌/◌, ◌%◌, ◌^◌, ◌≤◌, ◌<◌, ◌≡◌, ◌↔◌, Bool, true, ◌==◌, pos, arith}
use nvpkt.Packet.{Buffer, test_addresses, build_frame}
use nvpkt.Packet.Frame.{read16}

-- the ten words of the header
abbrev pub header_sum : Buffer → ℕ
header_sum buf =
    read16 buf 14
    + read16 buf 16
    + read16 buf 18
    + read16 buf 20
    + read16 buf 22
    + read16 buf 24
    + read16 buf 26
    + read16 buf 28
    + read16 buf 30
    + read16 buf 32

-- One step of the ones' complement sum: the carry comes back at the low end.
abbrev pub fold : ℕ → ℕ
fold s = s % 2 ^ 16 + s / 2 ^ 16

-- the receiver's test of RFC 791: the sum over the header, the checksum included, is all ones
pub is_valid_header : Buffer → Bool
is_valid_header buf = fold (fold (header_sum buf)) == 0xffff

-- With the addresses of load-and-xmit.c and xmit-from-pram.c and a length from 14 to 2^16 + 13, the
-- IP header passes the receiver's test of its checksum exactly when the length is 38633.
pub is_valid_header-build_frame :
    (n : ℕ) (buf : Buffer)
    → 14 ≤ n
    → n < 2 ^ 16 + 14
    → (is_valid_header (build_frame test_addresses (pos n) buf) ≡ true) ↔ (n ≡ 38633)
unfolding is_valid_header build_frame
is_valid_header-build_frame n buf big small = (λ h. ground arith, λ h. ground arith)
