-- ===== src/Packet.antt =====
-- The packet that the tools build: `build_pkt` of userland-driver/tools/load-and-xmit.c,
-- xmit-from-pram.c and store-pkt.c, and the same code in `main` of native-driver/tools/store-pkt.c.
pub mod Frame
pub mod Checksum
mod Tests
use nvpkt.Base.{
  ℕ, zero, suc, ◌+◌, ◌-◌, ◌*◌, ◌/◌, ◌%◌, ◌^◌, List, [], ◌∷◌, ◌==◌, if◌then◌else◌, u8, u16, u64, ℤ,
  pos, to_u64,
}

-- A buffer, by offset. The buffers of the tools hold 2048 bytes at least.
abbrev pub Buffer : Type 0
Buffer = ℕ → ℕ

-- `*(uint8_t *)(buf + i) = v`
abbrev pub store8 : ℕ → ℕ → Buffer → Buffer
store8 i v buf j = if i == j then u8 v else buf j

-- `*(uint16_t *)(buf + i) = htons(v)`
abbrev pub store16 : ℕ → ℕ → Buffer → Buffer
store16 i v buf = store8 (i + 1) (u16 v % 256) (store8 i (u16 v / 256) buf)

-- the bytes of an array, from offset `i` on
abbrev pub store_all : ℕ → List ℕ → Buffer → Buffer
store_all i [] buf = buf
store_all i (v ∷ vs) buf = store_all (i + 1) vs (store8 i v buf)

-- What the tools choose differently: two hardware addresses and two IP addresses, by bytes.
pub record Addresses : Type 0 where
  pub shost : ℕ × ℕ × ℕ × ℕ × ℕ × ℕ
  pub dhost : ℕ × ℕ × ℕ × ℕ × ℕ × ℕ
  pub src : ℕ × ℕ × ℕ × ℕ
  pub dst : ℕ × ℕ × ℕ × ℕ

abbrev pub list6 : ℕ × ℕ × ℕ × ℕ × ℕ × ℕ → List ℕ
list6 (a, b, c, d, e, f) = a ∷ b ∷ c ∷ d ∷ e ∷ f ∷ []

abbrev pub list4 : ℕ × ℕ × ℕ × ℕ → List ℕ
list4 (a, b, c, d) = a ∷ b ∷ c ∷ d ∷ []

-- `struct ether_header`: the source is at 6, the destination at 0, ETHERTYPE_IP at 12.
unfoldable pub ether : Addresses → Buffer → Buffer
ether a buf = store16 12 0x0800 (store_all 0 (list6 a.dhost) (store_all 6 (list6 a.shost) buf))

-- The bit-fields `ip_v` and `ip_hl` are the high and the low half of one byte.
unfoldable pub version : Buffer → Buffer
version buf =
    let buf₁ = store8 14 (buf 14 % 16 + 4 * 16) buf in store8 14 (buf₁ 14 / 16 * 16 + 5) buf₁

-- `len - k` as a `size_t`, for an `int` length; `htons` then takes 16 bits of it.
abbrev pub less : ℤ → ℕ → ℕ
less len k = u64 (to_u64 len + 2 ^ 64 - k)

-- `struct ip` at 14: IPTOS_LOWDELAY is 16, IPPROTO_UDP is 17.
unfoldable pub ip : Addresses → ℤ → Buffer → Buffer
unfolding version
ip a len buf = store_all 30 (list4 a.dst) (
    store_all 26 (list4 a.src) (
      store16 24 0 (
        store8 23 17 (
          store8 22 16 (
            store16 20 0 (store16 16 (less len 14) (store8 15 16 (store16 18 0 (version buf)))))))))

-- `struct udphdr` at 34
unfoldable pub udp : ℤ → Buffer → Buffer
udp len buf = store16 40 0 (store16 34 60000 (store16 36 60000 (store16 38 (less len 34) buf)))

unfoldable pub build_frame : Addresses → ℤ → Buffer → Buffer
unfolding ether ip udp
build_frame a len buf = udp len (ip a len (ether a buf))

-- load-and-xmit.c and xmit-from-pram.c
abbrev pub test_addresses : Addresses
test_addresses = record {
  shost = (0x01, 0x02, 0x03, 0x04, 0x05, 0x06);
  dhost = (0xff, 0xff, 0xff, 0xff, 0xff, 0xff);
  src = (10, 0, 0, 2);
  dst = (10, 0, 0, 1);
}

-- userland-driver/tools/store-pkt.c
abbrev pub store_addresses : Addresses
store_addresses = record {
  shost = (0x10, 0x20, 0x30, 0x40, 0x50, 0x60);
  dhost = (0xff, 0xff, 0xff, 0xff, 0xff, 0xff);
  src = (45, 0, 0, 2);
  dst = (45, 0, 0, 1);
}

-- native-driver/tools/store-pkt.c
abbrev pub native_addresses : Addresses
native_addresses = record {
  shost = (0x01, 0x02, 0x03, 0x04, 0x05, 0x06);
  dhost = (0x7c, 0xfe, 0x90, 0x0b, 0xc6, 0xad);
  src = (10, 0, 0, 2);
  dst = (10, 0, 0, 1);
}
