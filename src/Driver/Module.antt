-- ===== src/Driver/Module.antt =====
-- native-driver/nvpkt.c: `struct nvpkt`, `nvpkt_init_module` and `nvpkt_exit_module`, with the
-- references that they take and give back.
pub mod Refs
use nvpkt.Base.{
  ℕ, Bool, true, false, Option, none, some, List, ◌∷◌, ℤ, pos, negsuc, ltb_ℤ, if◌then◌else◌,
  is_some,
}
use nvpkt.Driver.Exec.{enodev, ebusy}

-- `struct nvpkt` after the `memset`: nothing yet.
pub record Nvpkt : Type 0 where
  pub disk : Option ℕ
  pub part : Option ℕ
  pub netdev : Option ℕ

abbrev pub cleared : Nvpkt
cleared = record { disk = none; part = none; netdev = none }

-- The calls that take and give back references.
pub data Event : Type 0 where
  got_disk : (granted : Bool) → Event
  got_part : (granted : Bool) → Event
  got_dev : (granted : Bool) → Event
  registered : (ret : ℤ) → Event
  put_part : Event
  put_dev : Event
  deregistered : Event

abbrev pub Log : Type 0
Log = List Event

-- The kernel's answers, each of which may depend on the calls before it. The names of the devices
-- are the module's parameters, and belong to the answers.
pub record Platform : Type 0 where
  -- `blk_lookup_devt(nvme_device, 0)`: is there such a device number?
  pub blk_lookup_devt : Log → Bool
  -- `get_gendisk`: the disk and the number of the partition
  pub get_gendisk : Log → Option (ℕ × ℕ)
  pub disk_get_part : Log → ℕ → ℕ → Option ℕ
  pub dev_get_by_name : Log → Option ℕ
  pub misc_register : Log → ℤ

module _ (p : Platform) where
  abbrev pub Result : Type 0
  Result = ℤ × Nvpkt × Log

  -- From `misc_register` on; at label `err_mdev` the device goes, then at `err_netdev` the partition.
  unfoldable pub init_mdev : ℕ → ℕ → ℕ → Log → Result
  init_mdev disk part dev l =
      let ret = p.misc_register l in
      let nvpkt : Nvpkt = record { disk = some disk; part = some part; netdev = some dev } in
      if ltb_ℤ ret (pos 0)
      then (ret, nvpkt, put_part ∷ put_dev ∷ registered ret ∷ l)
      else (ret, nvpkt, registered ret ∷ l)

  -- from `dev_get_by_name` on
  unfoldable pub init_netdev : ℕ → ℕ → Log → Result
  init_netdev disk part l = elim (p.dev_get_by_name l) [
    | none ↦ (
      enodev,
      record { disk = some disk; part = some part; netdev = none },
      put_part ∷ got_dev false ∷ l,
    )
    | some dev ↦ init_mdev disk part dev (got_dev true ∷ l)
  ]

  -- from `disk_get_part` on
  unfoldable pub init_part : ℕ → ℕ → Log → Result
  init_part disk partno l = elim (p.disk_get_part l disk partno) [
    | none ↦ (ebusy, cleared, got_part false ∷ l)
    | some part ↦ init_netdev disk part (got_part true ∷ l)
  ]

  -- from `get_gendisk` on
  unfoldable pub init_disk : Log → Result
  init_disk l = elim (p.get_gendisk l) [
    | none ↦ (enodev, cleared, got_disk false ∷ l)
    | some (disk, partno) ↦ init_part disk partno (got_disk true ∷ l)
  ]

  unfoldable pub init_module : Log → Result
  init_module l = if p.blk_lookup_devt l then init_disk l else (enodev, cleared, l)

-- The partition, the network device and the misc device are let go of, in this order.
unfoldable pub exit_module : Log → Log
exit_module l = deregistered ∷ put_dev ∷ put_part ∷ l
