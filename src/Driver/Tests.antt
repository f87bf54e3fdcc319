-- ===== src/Driver/Tests.antt =====
-- The driver on a small kernel that grants everything: runs, and the theorems at them.
use nvpkt.Base.{◌+◌, ◌-◌, ◌^◌, ◌≡◌, refl, true, some, [], ◌∷◌, ◌⊎◌, pos, ltb_ℤ, arith}
use nvpkt.Uapi.{Xmit, ioctl_txpkt}
use nvpkt.Driver.Kernel.{
  allocated_sgl, built_skb, allocated_request, allocated_bio, added_page, appended_bio,
  set_bio_disk, executed, transmitted, freed_request,
}
use nvpkt.Driver.Sample.{block_io, sgl_of, skb_at, packet, sample, sample-IsDocumented, ssd}
use nvpkt.Driver.Exec.{done, oops, Returns}
use nvpkt.Driver.Books.{Books, fresh_books, Settled}
use nvpkt.Driver.Skb.{first_piece, later_piece, skb_pieces, skb_from_sgvec}
use nvpkt.Driver.Bio.{bio_pieces, blk_rq_map_from_sgl}
use nvpkt.Driver.Xmit.{
  read_command, txpkt_one, txpkt_request, txpkt_map, txpkt_execute, txpkt_run, put_request,
  alloc_request, execute, transmit,
}
use nvpkt.Driver.Xmit.Audit.{txpkt_one-Settled}
use nvpkt.Driver.Xmit.Payload.{transfer_bytes, txpkt_one-oops}
use nvpkt.Driver.Xmit.Ignored.{with_status, txpkt_one-with_status}
use nvpkt.Driver.Submit.{user_command, user_length, submit_io}
use nvpkt.Driver.Submit.Ioctl.{transfer_bytes-user_command}
use nvpkt.Driver.Submit.Audit.{submit_io-Settled}
use nvpkt.Driver.Files.{open_file, unlocked_ioctl, release_file}
use nvpkt.Driver.Life.{
  Life, load, unload, operated, booted, Reach, boot, next, insmod, rmmod, opens, releases, requests,
}
use nvpkt.Driver.Life.Inv.{Inv, Reach-Inv}
use nvpkt.Driver.Module.{Platform, init_module, init_disk, init_part, init_netdev, init_mdev}
use nvpkt.Driver.Module.Refs.{Refs, tally, disk_taken, loaded, is_complete, init_module_lem}

-- One packet: what the kernel sees. The device may write 704 bytes of the 1024.
txpkt_one_run : txpkt_one sample ssd 2 packet [] ≡ (
  done (pos 0),
  freed_request 5
      ∷ transmitted (record (skb_at 0x10000) { len = 1024; dev = 2 })
      ∷ executed (record { tag = 5; timeout = 60; flags = 0; bio = some 9 })
      ∷ set_bio_disk 9 4
      ∷ appended_bio 9 (pos 0)
      ∷ added_page 9 16 704 0 704
      ∷ allocated_bio 1 true
      ∷ allocated_request (read_command ssd packet) true
      ∷ built_skb 0x10000 1344 true
      ∷ allocated_sgl 1344 true
      ∷ [],
)
unfolding txpkt_one txpkt_request txpkt_map txpkt_execute txpkt_run put_request alloc_request
    execute transmit skb_from_sgvec skb_pieces first_piece later_piece blk_rq_map_from_sgl
    bio_pieces
txpkt_one_run = refl

abbrev one_left : Books
one_left = record fresh_books { sgls = 1; asked = 1 }

txpkt_one-Settled_example : Returns (λ _ l'. Settled one_left l') (txpkt_one sample ssd 2 packet [])
txpkt_one-Settled_example =
    txpkt_one-Settled sample ssd sample-IsDocumented 2 packet [] (omega arith) refl

-- Every read fails with the status 0x281.
txpkt_one-with_status_example :
    txpkt_one (with_status sample (λ _ _. 0x281)) ssd 2 packet [] ≡ txpkt_one sample ssd 2 packet []
txpkt_one-with_status_example = txpkt_one-with_status sample (λ _ _. 0x281) ssd 2 packet []

transfer_bytes-user_command_example :
    transfer_bytes ssd (user_command ssd block_io) ≡ user_length ssd block_io
transfer_bytes-user_command_example =
    transfer_bytes-user_command ssd block_io (omega arith) (omega arith)

submit_io-Settled_example : Returns (λ _ l'. Settled fresh_books l') (submit_io sample ssd 0 [])
submit_io-Settled_example = submit_io-Settled sample ssd sample-IsDocumented 0 [] fresh_books refl

-- The length 2^64 - 320, which a process may pass.
abbrev huge : Xmit
huge = record { len = 2 ^ 64 - 320; slba = 1; count = 1 }

txpkt_one-oops_example : txpkt_one sample ssd 2 huge [] ≡ (oops, allocated_sgl 0 true ∷ [])
txpkt_one-oops_example = txpkt_one-oops sample ssd 2 huge (sgl_of 0) [] refl refl

abbrev present : Platform
present = record {
  blk_lookup_devt = λ _. true;
  get_gendisk = λ _. some (4, 1);
  disk_get_part = λ _ _ _. some 6;
  dev_get_by_name = λ _. some 2;
  misc_register = λ _. pos 0;
}

abbrev none_held : Refs
none_held = record { disks = 0; parts = 0; devs = 0; mdevs = 0 }

init_module_lem_example :
    let (ret, nvpkt, l') = init_module present [] in
    (tally l'
      ≡ some (record {
        disks = 0 + disk_taken present [];
        parts = 0 + loaded ret;
        devs = 0 + loaded ret;
        mdevs = 0 + loaded ret;
      }))
    × ((ltb_ℤ ret (pos 0) ≡ true) ⊎ (is_complete nvpkt ≡ true))
init_module_lem_example = init_module_lem present [] {r = none_held} refl

-- Loaded, opened, a packet sent, closed, unloaded.
abbrev one_life : Life
one_life =
    let s = operated sample (λ _. ssd) (load present booted) 1 open_file in
    let t = operated sample (λ _. ssd) s 1 (unlocked_ioctl (ioctl_txpkt sample.iow) 0) in
    unload (operated sample (λ _. ssd) t 0 release_file)

lived : Reach sample (λ _. ssd) present one_life
unfolding load unload init_module init_disk init_part init_netdev init_mdev
lived =
    next
      (next
        (next (next (next boot (insmod refl)) (opens refl))
          (requests (ioctl_txpkt sample.iow) 0 (omega arith)))
        (releases (omega arith)))
      (rmmod refl refl)

Reach-Inv_example : Inv one_life
Reach-Inv_example =
    Reach-Inv sample (λ _. ssd) sample-IsDocumented (λ l arg. omega arith) present lived
