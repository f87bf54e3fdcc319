-- ===== src/Netmap.antt =====
-- The netmap API that the tools of userland-driver/tools use, as parameters: a ring that the program
-- shares with the kernel, and the two inline functions on it.
pub mod Space
use nvpkt.Base.{ℕ, ◌+◌, ◌<◌, ◌≡◌, Bool, ◌==◌, if◌then◌else◌}

-- `struct netmap_slot`
pub record Slot : Type 0 where
  pub len : ℕ
  pub buf_idx : ℕ
  pub ptr : ℕ
  pub flags : ℕ

-- `struct netmap_ring`
pub record Ring : Type 0 where
  pub head : ℕ
  pub cur : ℕ
  pub tail : ℕ
  pub num_slots : ℕ
  pub slot : ℕ → Slot

pub record Netmap : Type 0 where
  pub nm_ring_next : Ring → ℕ → ℕ
  pub nm_ring_empty : Ring → Bool
  pub ns_indirect : ℕ  -- NS_INDIRECT
  pub ns_phy_indirect : ℕ  -- NS_PHY_INDIRECT

-- A ring whose indexes are slots, of which the program owns those from `head` to `tail`.
pub record IsRing (r : Ring) : Type 0 where
  pub cur_in : r.cur < r.num_slots
  pub tail_in : r.tail < r.num_slots
  pub together : r.head ≡ r.cur

-- What is documented of the functions.
pub record IsNetmap (nm : Netmap) : Type 0 where
  pub next : (r : Ring) (i : ℕ) → nm.nm_ring_next r i ≡ (if i + 1 == r.num_slots then 0 else i + 1)
  pub empty : (r : Ring) → IsRing r → nm.nm_ring_empty r ≡ (r.cur == r.tail)

-- `ring->slot[i] = s`
abbrev pub set_slot : Ring → ℕ → Slot → Ring
set_slot r i s = record r { slot = λ j. if j == i then s else r.slot j }
