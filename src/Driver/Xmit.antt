-- ===== src/Driver/Xmit.antt =====
-- native-driver/nvpkt.c, `nvpkt_ioctl_txpkt_one` and the two requests that call it: read a packet
-- from the namespace into a fresh scatterlist and queue it on the network device.
pub mod Audit
pub mod Count
pub mod Payload
pub mod Ignored
use nvpkt.Base.{
  ℕ, zero, suc, ◌+◌, ◌/◌, ◌%◌, ◌^◌, Option, none, some, inl, inr, u16, u32, u64, to_s64, ◌==◌,
  if◌then◌else◌, is_some, is_zero_ℤ, true, false, ℤ, pos, ◌⊎◌, Bool,
}
use nvpkt.Uapi.{Xmit, xmit_size}
use nvpkt.Driver.Kernel.{
  Scatterlist, SkBuff, Command, Request, Namespace, Kernel, copied_from_user, allocated_sgl,
  allocated_request, set_bio_disk, executed, transmitted, freed_request,
}
use nvpkt.Driver.Exec.{M, pure, crash, call, note, Status, ok, err, enomem, eintr, ◌>>=◌, ◌>>◌}
use nvpkt.Driver.Skb.{skb_from_sgvec}
use nvpkt.Driver.Bio.{blk_rq_map_from_sgl}

-- `nblocks`: `npr.len >> ns->lba_shift` as an `unsigned`, at least 1
abbrev pub block_count : Namespace → ℕ → ℕ
block_count ns len = let n = u32 (len / 2 ^ ns.lba_shift) in if n == 0 then 1 else n

-- The command: `nvme_cmd_read` is 2, and the length field has 16 bits.
unfoldable pub read_command : Namespace → Xmit → Command
read_command ns npr = record {
  opcode = 2;
  nsid = u32 ns.ns_id;
  slba = u64 npr.slba;
  length = u16 (block_count ns npr.len);
  control = 0;
  dsmgmt = 0;
  reftag = 0;
  apptag = 0;
  appmask = 0;
}

-- `flags & NVME_REQ_CANCELLED`, the lowest bit
abbrev pub is_cancelled : ℕ → Bool
is_cancelled flags = flags % 2 == 1

abbrev pub was_granted {ℓ κ} : {A : Type ℓ} {B : Type κ} → A ⊎ B → Bool
was_granted (inl _) = false
was_granted (inr _) = true

module _ (k : Kernel) where
  -- label `out`: the request goes, and `ret` is returned
  unfoldable pub put_request : Request → ℤ → M ℤ
  put_request req ret = do note (freed_request req.tag); pure ret

  unfoldable pub alloc_request : Command → M (ℤ ⊎ Request)
  alloc_request c = call (λ l. k.nvme_alloc_request l c) (λ r. allocated_request c (was_granted r))

  -- `blk_execute_rq`: the flags and the status of the request when it is done
  unfoldable pub execute : Request → M (ℕ × ℕ)
  execute req = call (λ l. k.blk_execute_rq l req) (λ _. executed req)

  unfoldable pub transmit : SkBuff → M ℤ
  transmit skb = call (λ l. k.dev_queue_xmit l skb) (λ _. transmitted skb)

  -- From `bio->bi_disk` on. The status is overwritten by what `dev_queue_xmit` returns.
  unfoldable pub txpkt_run : Namespace → SkBuff → Request → ℕ → M ℤ
  unfolding put_request execute transmit
  txpkt_run ns skb req bio = do
    note (set_bio_disk bio ns.disk)
    done ← execute req
    if is_cancelled done.0
        then put_request req eintr
        else (do ret ← transmit skb; put_request req ret)

  -- from `req->timeout` on
  unfoldable pub txpkt_execute : Namespace → SkBuff → Request → M ℤ
  txpkt_execute ns skb req =
      let req = record req { timeout = k.admin_timeout } in
      elim (req.bio) [ none ↦ crash | some bio ↦ txpkt_run ns skb req bio ]

  -- from the bio on
  unfoldable pub txpkt_map : Namespace → Xmit → Scatterlist → SkBuff → Request → M ℤ
  unfolding put_request
  txpkt_map ns npr sgl skb req = do
    mapped ← blk_rq_map_from_sgl k req sgl npr.len
    if is_zero_ℤ mapped.0 then txpkt_execute ns skb mapped.1 else put_request mapped.1 mapped.0

  -- from `skb->dev` on
  unfoldable pub txpkt_request : Namespace → ℕ → Xmit → Scatterlist → SkBuff → M ℤ
  unfolding alloc_request
  txpkt_request ns netdev npr sgl skb = do
    let skb = k.skb_set_mac_header (record skb { dev = netdev }) 0
    got ← alloc_request (read_command ns npr)
    elim got [ inl e ↦ pure e | inr req ↦ txpkt_map ns npr sgl skb req ]

  -- the size of the buffer: the packet and the `skb_shared_info` behind it
  abbrev pub buffer_size : Xmit → ℕ
  buffer_size npr = u64 (npr.len + k.shared_info)

  -- behind `skb_from_sgvec`
  abbrev pub txpkt_built : Namespace → ℕ → Xmit → Scatterlist → Status (Option SkBuff) → M ℤ
  txpkt_built ns netdev npr sgl (err e) = pure e
  txpkt_built ns netdev npr sgl (ok none) = crash
  txpkt_built ns netdev npr sgl (ok (some skb)) = txpkt_request ns netdev npr sgl skb

  unfoldable pub txpkt_one : Namespace → ℕ → Xmit → M ℤ
  txpkt_one ns netdev npr = do
    got ←
        call (λ l. k.sgl_alloc l (buffer_size npr))
          (λ s. allocated_sgl (buffer_size npr) (is_some s))
    elim got [
      | none ↦ pure enomem
      | some sgl ↦ do
        built ← skb_from_sgvec k sgl (buffer_size npr)
        txpkt_built ns netdev npr sgl built
    ]

  unfoldable pub copy_xmit : ℕ → M (ℕ × Xmit)
  copy_xmit arg = call (λ l. k.copy_xmit l arg) (λ _. copied_from_user xmit_size)

  -- `nvpkt_ioctl_txpkt`: what `copy_from_user` did not copy is the return value.
  unfoldable pub txpkt : Namespace → ℕ → ℕ → M ℤ
  unfolding copy_xmit
  txpkt ns netdev arg = do
    copied ← copy_xmit arg
    if copied.0 == 0 then txpkt_one ns netdev copied.1 else pure (pos copied.0)

  -- The loop of `nvpkt_ioctl_txpkt_count` with its rounds left; each result is dropped.
  unfoldable pub txpkt_times : Namespace → ℕ → Xmit → ℕ → M (Unit {0})
  txpkt_times ns netdev npr zero = pure tt
  txpkt_times ns netdev npr (suc n) = do txpkt_one ns netdev npr; txpkt_times ns netdev npr n

  -- `count` is `npr.count` when the loop ends.
  unfoldable pub txpkt_count : Namespace → ℕ → ℕ → M ℤ
  unfolding copy_xmit
  txpkt_count ns netdev arg = do
    copied ← copy_xmit arg
    if copied.0 == 0
        then (do txpkt_times ns netdev copied.1 copied.1.count; pure (to_s64 (copied.1.count + 1)))
        else pure (pos copied.0)
