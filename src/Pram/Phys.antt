-- ===== src/Pram/Phys.antt =====
-- `phy_addr` of userland-driver/tools/xmit-from-pram.c and recv-to-pram.c: the physical address of a
-- byte of the process's memory, as /proc/self/pagemap says.
use nvpkt.Base.{
  ℕ, ◌+◌, ◌*◌, ◌/◌, ◌%◌, ◌^◌, ◌<◌, ◌≡◌, Option, none, some, false, ◌||◌, ◌==◌, if◌then◌else◌, u64,
  ℤ, pos, ltb_ℤ, arith,
}

-- What stands outside: the page size, the file, whether it can be positioned at an offset, and what
-- `read` says and stores there.
pub record Pagemap : Type 0 where
  pub pagesize : ℕ
  pub open_fd : ℤ
  pub lseek : ℕ → ℤ
  pub read : ℕ → ℤ × ℕ

-- the offset in the file: 8 bytes for each page
abbrev pub entry_offset : Pagemap → ℕ → ℕ
entry_offset pm virt = u64 (virt / pm.pagesize * 8)

-- `none` is `exit(1)`. The mask has 55 bits.
unfoldable pub phy_addr : Pagemap → ℕ → Option ℕ
phy_addr pm virt =
    let (rc, entry) = pm.read (entry_offset pm virt) in
    if ltb_ℤ pm.open_fd (pos 0)
    then none
    else if ltb_ℤ (pm.lseek (entry_offset pm virt)) (pos 0)
    then none
    else if ltb_ℤ rc (pos 1) || entry == 0
    then none
    else some (u64 (u64 (entry % 2 ^ 55 * pm.pagesize) + virt % pm.pagesize))

-- With pages of 4096 bytes and a file that can be read, whose entries name frames below 2^52: the
-- address is in the frame that the page's entry names, as far from its start as the byte is from
-- the start of its page.
pub phy_addr_lem :
    (pm : Pagemap) (virt frame flags : ℕ)
    → pm.pagesize ≡ 4096
    → ltb_ℤ pm.open_fd (pos 0) ≡ false
    → ltb_ℤ (pm.lseek (entry_offset pm virt)) (pos 0) ≡ false
    → pm.read (entry_offset pm virt) ≡ (pos 8, flags * 2 ^ 55 + frame)
    → 0 < frame
    → frame < 2 ^ 52
    → phy_addr pm virt ≡ some (frame * 4096 + virt % 4096)
unfolding phy_addr
phy_addr_lem pm virt frame flags size opened sought read some_frame small =
    rw (opened, sought, read, size) (ground arith)
