-- ===== src/Packet/Frame.antt =====
-- A receiver's view of a frame, independent of the code that builds it, and what it makes of the
-- packets of the tools.
use nvpkt.Base.{
  ℕ, ◌+◌, ◌-◌, ◌*◌, ◌^◌, ◌≤◌, ◌<◌, ◌≡◌, Option, none, some, Bool, ◌&&◌, ◌==◌, if◌then◌else◌, ℤ, pos,
  arith,
}
use nvpkt.Packet.{Buffer, Addresses, test_addresses, build_frame}

-- what a UDP datagram in an IP packet in an Ethernet frame says
pub record Frame : Type 0 where
  pub addresses : Addresses
  pub sport : ℕ
  pub dport : ℕ
  pub payload : ℕ  -- bytes behind the UDP header

-- a number in network order
abbrev pub read16 : Buffer → ℕ → ℕ
read16 buf i = buf i * 256 + buf (i + 1)

-- Ethernet type IP, version 4 with five header words, not a fragment, UDP, lengths that agree.
abbrev pub is_udp_frame : Buffer → Bool
is_udp_frame buf =
    read16 buf 12 == 0x0800
    && buf 14 == 0x45
    && read16 buf 20 == 0
    && buf 23 == 17
    && read16 buf 38 + 20 == read16 buf 16

abbrev pub read_addresses : Buffer → Addresses
read_addresses buf = record {
  dhost = (buf 0, buf 1, buf 2, buf 3, buf 4, buf 5);
  shost = (buf 6, buf 7, buf 8, buf 9, buf 10, buf 11);
  src = (buf 26, buf 27, buf 28, buf 29);
  dst = (buf 30, buf 31, buf 32, buf 33);
}

pub parse : Buffer → Option Frame
parse buf =
    if is_udp_frame buf
    then some (record {
      addresses = read_addresses buf;
      sport = read16 buf 34;
      dport = read16 buf 36;
      payload = read16 buf 38 - 8;
    })
    else none

-- The addresses are bytes.
pub record IsBytes (a : Addresses) : Type 0 where
  pub shost :
      (a.shost.0 < 256)
      × (a.shost.1 < 256)
      × (a.shost.2 < 256)
      × (a.shost.3 < 256)
      × (a.shost.4 < 256)
      × (a.shost.5 < 256)
  pub dhost :
      (a.dhost.0 < 256)
      × (a.dhost.1 < 256)
      × (a.dhost.2 < 256)
      × (a.dhost.3 < 256)
      × (a.dhost.4 < 256)
      × (a.dhost.5 < 256)
  pub src : (a.src.0 < 256) × (a.src.1 < 256) × (a.src.2 < 256) × (a.src.3 < 256)
  pub dst : (a.dst.0 < 256) × (a.dst.1 < 256) × (a.dst.2 < 256) × (a.dst.3 < 256)

pub test_addresses-IsBytes : IsBytes test_addresses
test_addresses-IsBytes = record {
  shost = (omega arith, omega arith, omega arith, omega arith, omega arith, omega arith);
  dhost = (omega arith, omega arith, omega arith, omega arith, omega arith, omega arith);
  src = (omega arith, omega arith, omega arith, omega arith);
  dst = (omega arith, omega arith, omega arith, omega arith);
}

-- For addresses of bytes and a length from 42 to 2^16 + 13, a receiver reads the frame back as what
-- it was built from, whatever the buffer held before.
pub parse-build_frame :
    (a : Addresses) (n : ℕ) (buf : Buffer)
    → IsBytes a
    → 42 ≤ n
    → n < 2 ^ 16 + 14
    → parse (build_frame a (pos n) buf)
      ≡ some (record { addresses = a; sport = 60000; dport = 60000; payload = n - 42 })
unfolding parse build_frame
parse-build_frame a n buf bytes big small = ground arith

-- Nothing behind the 42 bytes of headers is written: the payload is what the buffer held before.
pub build_frame_payload :
    (a : Addresses) (len : ℤ) (buf : Buffer) (i : ℕ) → 42 ≤ i → build_frame a len buf i ≡ buf i
unfolding build_frame
build_frame_payload a len buf i h = ground arith

-- The 42 bytes of headers do not depend on what the buffer held before.
pub build_frame_headers :
    (a : Addresses) (len : ℤ) (buf buf' : Buffer) (i : ℕ)
    → i < 42
    → build_frame a len buf i ≡ build_frame a len buf' i
unfolding build_frame
build_frame_headers a len buf buf' i h = ground arith
