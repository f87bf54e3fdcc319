-- ===== src/Driver/Sample.antt =====
-- A small kernel that grants everything, with its documentation: data for the tests of the driver and
-- of the programs that call it.
use nvpkt.Base.{ℕ, ◌+◌, ◌*◌, ◌^◌, refl, none, some, [], ◌∷◌, inr, pos, u32, arith}
use nvpkt.Uapi.{Xmit, UserIo}
use nvpkt.Driver.Kernel.{Piece, Scatterlist, SkBuff, Namespace, Kernel}
use nvpkt.Driver.Docs.{IsDocumented, AddsWhole}
use nvpkt.Driver.Submit.Ioctl.{TellsApart}

abbrev pub piece : ℕ → Piece
piece n = record { addr = 0x10000; page = 16; offset = 0; length = n }

abbrev pub sgl_of : ℕ → Scatterlist
sgl_of n = record { head = 7; nents = 1; pieces = piece n ∷ [] }

abbrev pub skb_at : ℕ → SkBuff
skb_at a = record { head = a; len = 0; data_len = 0; dev = 0; mac_header = 0 }

abbrev pub packet : Xmit
packet = record { len = 1024; slba = 1; count = 2 }

abbrev pub block_io : UserIo
block_io = record {
  opcode = 1;
  flags = 0;
  control = 0;
  nblocks = 1;
  addr = 0x5000;
  slba = 1;
  dsmgmt = 0;
  reftag = 0;
  apptag = 0;
  appmask = 0;
}

-- An argument names `x` at 0, and a bad address elsewhere.
abbrev pub sample_for : Xmit → Kernel
sample_for x = record {
  shared_info = 320;
  admin_timeout = 60;
  iow = λ t n s. 2 ^ 30 + s * 2 ^ 16 + t * 256 + n;
  copy_xmit = λ _ a. (a, x);
  copy_user_io = λ _ a. (a, block_io);
  sgl_alloc = λ _ n. some (sgl_of n);
  build_skb = λ _ a _. some (skb_at a);
  skb_put = λ s n. record s { len = u32 (s.len + n) };
  skb_fill_page_desc = λ s _ _ _ _. s;
  skb_set_mac_header = λ s n. record s { mac_header = n };
  nvme_alloc_request = λ _ _. inr (record { tag = 5; timeout = 0; flags = 0; bio = none });
  bio_kmalloc = λ _ _. some 9;
  bio_add_pc_page = λ _ _ _ n _. n;
  blk_rq_append_bio = λ _ _ b. (pos 0, some b);
  blk_rq_map_user = λ _ _ _ _. (pos 0, some 9);
  blk_execute_rq = λ _ _. (0, 0);
  dev_queue_xmit = λ _ _. pos 0;
}

pub sample_for-IsDocumented : (x : Xmit) → IsDocumented (sample_for x)
sample_for-IsDocumented x = record {
  sgl_total = λ l n s e. ground arith;
  append_sets = λ l r b h. (b, refl);
  map_sets = λ l r a n h. (9, refl);
  build_len = λ l a n s e. ground arith;
  put_len = λ s n. (refl, refl);
  fill_len = λ s i p o n. (refl, refl);
  mac_len = λ s n. (refl, refl);
  info_small = omega arith;
}

abbrev pub sample : Kernel
sample = sample_for packet

pub sample-IsDocumented : IsDocumented sample
sample-IsDocumented = sample_for-IsDocumented packet

pub sample-AddsWhole : AddsWhole sample
sample-AddsWhole l b p n o = refl

pub sample-TellsApart : TellsApart sample
sample-TellsApart a b s t ha hb ne e = omega arith

abbrev pub ssd : Namespace
ssd = record { ns_id = 1; lba_shift = 9; queue = 3; disk = 4 }
