-- ===== src/Driver/Together.antt =====
-- native-driver/nvpkt.c: several processes that use the loaded module at the same time. The functions of
-- the driver share nothing but the fields of struct nvpkt, which they only read: what they have of each
-- other is what the kernel answers.
pub mod Orderly
mod Tests
use nvpkt.Base.{ℕ, ◌+◌, ◌<◌, ◌≡◌, Bool, List, [], ◌∷◌, map, length, ◌==◌, ◌&&◌, if◌then◌else◌, ℤ}
use nvpkt.Driver.Kernel.{Event, Log, Kernel, Namespace}
use nvpkt.Driver.Files.{Operation, session}

-- The calls of all processes, with the number of the process, newest first.
abbrev pub History : Type 0
History = List (ℕ × Event)

abbrev pub all_calls : History → Log
all_calls h = map (λ (i, e). e) h

-- the calls of process `i`
abbrev pub calls_of : (i : ℕ) → History → Log
calls_of i [] = []
calls_of i ((j, e) ∷ h) = if j == i then e ∷ calls_of i h else calls_of i h

-- all calls that the kernel saw before call number `n` of process `i`
unfoldable pub before_call : (i n : ℕ) → History → Log
before_call i n [] = []
before_call i n ((j, e) ∷ h) =
    if (j == i) && (length (calls_of i h) == n) then all_calls h else before_call i n h

-- The kernel as a process sees it, which knows its own calls: `world` says what the kernel has seen.
abbrev pub seen_through : (world : Log → Log) → Kernel → Kernel
seen_through world k = record {
  shared_info = k.shared_info;
  admin_timeout = k.admin_timeout;
  iow = k.iow;
  copy_xmit = λ l. k.copy_xmit (world l);
  copy_user_io = λ l. k.copy_user_io (world l);
  sgl_alloc = λ l. k.sgl_alloc (world l);
  build_skb = λ l. k.build_skb (world l);
  skb_put = k.skb_put;
  skb_fill_page_desc = k.skb_fill_page_desc;
  skb_set_mac_header = k.skb_set_mac_header;
  nvme_alloc_request = λ l. k.nvme_alloc_request (world l);
  bio_kmalloc = λ l. k.bio_kmalloc (world l);
  bio_add_pc_page = λ l. k.bio_add_pc_page (world l);
  blk_rq_append_bio = λ l. k.blk_rq_append_bio (world l);
  blk_rq_map_user = λ l. k.blk_rq_map_user (world l);
  blk_execute_rq = λ l. k.blk_execute_rq (world l);
  dev_queue_xmit = λ l. k.dev_queue_xmit (world l);
}

module _ (kernel_of : ℕ → Kernel) (ns : Namespace) (netdev : ℕ) where
  -- what process `i` sees while all that happens
  abbrev pub seen_by : (i : ℕ) → History → Kernel
  seen_by i h = seen_through (λ l. before_call i (length l) h) (kernel_of i)

  -- The history is one in which each of `count` processes runs its operations, one after the other, and
  -- the kernel answers each call from what all of them have done before.
  abbrev pub IsRun : (count : ℕ) → (ℕ → List Operation) → History → Type 0
  IsRun count ops h =
      (i : ℕ) → i < count → (session (seen_by i h) ns netdev (ops i) []).1 ≡ calls_of i h
