-- ===== src/Driver/Kernel.antt =====
-- What native-driver/nvpkt.c asks of the kernel, none of which is in the repository: the objects
-- that it hands about, the calls as they are seen from outside, and the answers.
use nvpkt.Base.{ℕ, ℤ, Bool, Option, List, ◌⊎◌}
use nvpkt.Uapi.{Xmit, UserIo}

-- What one step of a `struct sg_mapping_iter` yields: a piece of a page.
pub record Piece : Type 0 where
  pub addr : ℕ
  pub page : ℕ
  pub offset : ℕ
  pub length : ℕ

-- A scatterlist: its address, its number of entries, and the pieces that walking it yields.
pub record Scatterlist : Type 0 where
  pub head : ℕ
  pub nents : ℕ
  pub pieces : List Piece

-- The parts of `struct sk_buff` that the driver reads or writes.
pub record SkBuff : Type 0 where
  pub head : ℕ
  pub len : ℕ
  pub data_len : ℕ
  pub dev : ℕ
  pub mac_header : ℕ

-- The `rw` member of `struct nvme_command`.
pub record Command : Type 0 where
  pub opcode : ℕ
  pub nsid : ℕ
  pub slba : ℕ
  pub length : ℕ
  pub control : ℕ
  pub dsmgmt : ℕ
  pub reftag : ℕ
  pub apptag : ℕ
  pub appmask : ℕ

-- The parts of `struct request` and of the `struct nvme_request` behind it.
pub record Request : Type 0 where
  pub tag : ℕ
  pub timeout : ℕ
  pub flags : ℕ
  pub bio : Option ℕ

-- The parts of `struct nvme_ns` and its head.
pub record Namespace : Type 0 where
  pub ns_id : ℕ
  pub lba_shift : ℕ
  pub queue : ℕ
  pub disk : ℕ

-- The calls that the kernel sees, with what it granted.
pub data Event : Type 0 where
  copied_from_user : (size : ℕ) → Event
  allocated_sgl : (size : ℕ) → (granted : Bool) → Event
  built_skb : (addr size : ℕ) → (granted : Bool) → Event
  filled_frag : (index page offset size : ℕ) → Event
  allocated_request : Command → (granted : Bool) → Event
  allocated_bio : (nents : ℕ) → (granted : Bool) → Event
  added_page : (bio page size offset added : ℕ) → Event
  appended_bio : (bio : ℕ) → (ret : ℤ) → Event
  mapped_user : (addr size : ℕ) → (ret : ℤ) → Event
  set_bio_disk : (bio disk : ℕ) → Event
  executed : Request → Event
  unmapped_user : (bio : ℕ) → Event
  transmitted : SkBuff → Event
  freed_request : (tag : ℕ) → Event

-- The calls made so far, newest first.
abbrev pub Log : Type 0
Log = List Event

-- The kernel's answers. Each may depend on all that went before, through the log.
pub record Kernel : Type 0 where
  -- `sizeof(struct skb_shared_info)` and ADMIN_TIMEOUT
  pub shared_info : ℕ
  pub admin_timeout : ℕ
  -- `_IOW`
  pub iow : ℕ → ℕ → ℕ → ℕ
  -- `copy_from_user`: the bytes not copied, and what arrived
  pub copy_xmit : Log → ℕ → ℕ × Xmit
  pub copy_user_io : Log → ℕ → ℕ × UserIo
  pub sgl_alloc : Log → ℕ → Option Scatterlist
  pub build_skb : Log → ℕ → ℕ → Option SkBuff
  pub skb_put : SkBuff → ℕ → SkBuff
  pub skb_fill_page_desc : SkBuff → ℕ → ℕ → ℕ → ℕ → SkBuff
  pub skb_set_mac_header : SkBuff → ℕ → SkBuff
  -- the negative error of the pointer, or the request
  pub nvme_alloc_request : Log → Command → ℤ ⊎ Request
  pub bio_kmalloc : Log → ℕ → Option ℕ
  -- the bytes that were added
  pub bio_add_pc_page : Log → (bio page size offset : ℕ) → ℕ
  -- the return value, and `req->bio` afterwards
  pub blk_rq_append_bio : Log → Request → ℕ → ℤ × Option ℕ
  pub blk_rq_map_user : Log → Request → ℕ → ℕ → ℤ × Option ℕ
  -- `nvme_req(req)->flags` and `->status` when the request is done
  pub blk_execute_rq : Log → Request → ℕ × ℕ
  pub dev_queue_xmit : Log → SkBuff → ℤ
