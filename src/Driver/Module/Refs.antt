-- ===== src/Driver/Module/Refs.antt =====
-- native-driver/nvpkt.c: what loading and unloading the module leaves of the references.
use nvpkt.Base.{
  ℕ, ◌+◌, ◌-◌, ◌≡◌, ◌≤◌, refl, Bool, true, false, Option, none, some, [], ◌∷◌, ℤ, pos, ltb, ltb_ℤ,
  is_some, ◌&&◌, ◌⊎◌, if◌then◌else◌, arith,
}
use nvpkt.Driver.Module.{
  Nvpkt, Event, got_disk, got_part, got_dev, registered, put_part, put_dev, deregistered, Log,
  Platform, init_mdev, init_netdev, init_part, init_disk, init_module, exit_module,
}

-- references to the disk, the partition and the network device, and registrations of the misc device
pub record Refs : Type 0 where
  pub disks : ℕ
  pub parts : ℕ
  pub devs : ℕ
  pub mdevs : ℕ

-- None: a reference is given back that is not held.
abbrev pub count : Event → Refs → Option Refs
count (got_disk true) r = some (record r { disks = r.disks + 1 })
count (got_part true) r = some (record r { parts = r.parts + 1 })
count (got_dev true) r = some (record r { devs = r.devs + 1 })
count (registered ret) r =
    if ltb_ℤ ret (pos 0) then some r else some (record r { mdevs = r.mdevs + 1 })
count put_part r = if ltb 0 r.parts then some (record r { parts = r.parts - 1 }) else none
count put_dev r = if ltb 0 r.devs then some (record r { devs = r.devs - 1 }) else none
count deregistered r = if ltb 0 r.mdevs then some (record r { mdevs = r.mdevs - 1 }) else none
count _ r = some r

abbrev pub tally : Log → Option Refs
tally [] = some (record { disks = 0; parts = 0; devs = 0; mdevs = 0 })
tally (e ∷ l) = elim (tally l) [ none ↦ none | some r ↦ count e r ]

-- the disk's reference that `get_gendisk` took
abbrev pub disk_taken : Platform → Log → ℕ
disk_taken p l = if p.blk_lookup_devt l then elim (p.get_gendisk l) [ none ↦ 0 | some _ ↦ 1 ] else 0

-- 1 if loading succeeded
abbrev pub loaded : ℤ → ℕ
loaded ret = if ltb_ℤ ret (pos 0) then 0 else 1

abbrev pub is_complete : Nvpkt → Bool
is_complete n = is_some n.disk && is_some n.part && is_some n.netdev

-- Loading the module, whatever the kernel answers, gives back no reference that was not taken; it
-- ends with a negative status and no reference beyond the disk, or with exactly one of each held
-- and every field of struct nvpkt set.
pub init_module_lem :
    (p : Platform) (l : Log) {r : Refs}
    → tally l ≡ some r
    → let (ret, nvpkt, l') = init_module p l in
      (tally l'
        ≡ some (record {
          disks = r.disks + disk_taken p l;
          parts = r.parts + loaded ret;
          devs = r.devs + loaded ret;
          mdevs = r.mdevs + loaded ret;
        }))
      × ((ltb_ℤ ret (pos 0) ≡ true) ⊎ (is_complete nvpkt ≡ true))
unfolding init_module init_disk init_part init_netdev init_mdev
init_module_lem p l {r} a = ground arith

-- A loading that succeeded took a reference to the disk.
pub disk_taken-loaded : (p : Platform) (l : Log) → loaded (init_module p l).0 ≤ disk_taken p l
unfolding init_module init_disk init_part init_netdev init_mdev
disk_taken-loaded p l = ground arith

-- Unloading a module that was loaded gives back the partition, the network device and the misc
-- device, and keeps the reference to the disk.
exit_module-init_module :
    (p : Platform) (l : Log) {r : Refs}
    → tally l ≡ some r
    → ltb_ℤ (init_module p l).0 (pos 0) ≡ false
    → tally (exit_module (init_module p l).2) ≡ some (record r { disks = r.disks + 1 })
unfolding exit_module init_module init_disk init_part init_netdev init_mdev
exit_module-init_module p l {r} a ok = ground arith

-- Unloading a module that was loaded lets go of the partition and of the network device while the
-- misc device is still registered; the deregistration is the last call.
exit_module-registered :
    (p : Platform) (l : Log) {r : Refs}
    → tally l ≡ some r
    → ltb_ℤ (init_module p l).0 (pos 0) ≡ false
    → (l₁ : Log) × (exit_module (init_module p l).2 ≡ deregistered ∷ l₁)
      × (tally l₁ ≡ some (record r { disks = r.disks + 1; mdevs = r.mdevs + 1 }))
unfolding exit_module init_module init_disk init_part init_netdev init_mdev
exit_module-registered p l {r} a ok = (put_dev ∷ put_part ∷ (init_module p l).2, refl, ground arith)
