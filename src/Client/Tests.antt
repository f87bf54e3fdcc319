-- ===== src/Client/Tests.antt =====
-- The tools on the driver, on a small kernel.
use nvpkt.Base.{◌≡◌, refl, [], ◌∷◌, some, true, pos, arith}
use nvpkt.Uapi.{user_io_size}
use nvpkt.Driver.Kernel.{
  Kernel, freed_request, unmapped_user, executed, set_bio_disk, mapped_user, allocated_request,
  copied_from_user,
}
use nvpkt.Driver.Exec.{done, Returns}
use nvpkt.Driver.Books.{fresh_books}
use nvpkt.Driver.Sample.{sample, sample_for, sample_for-IsDocumented, sample-TellsApart, ssd}
use nvpkt.Driver.Xmit.Count.{Tried}
use nvpkt.Driver.Submit.{
  user_command, user_length, submit_run, submit_execute, submit_map, submit_io, ioctl,
}
use nvpkt.Client.{exit_status, xmit_pkt_request, xmit_pkt, store_pkt_io, store_pkt}
use nvpkt.Client.Run.{xmit_pkt-Tried}

-- Three packets: `main` returns 4.
xmit_pkt-Tried_example :
    Returns
      (λ r l'. (r ≡ pos 4) × (exit_status r ≡ 4) × Tried fresh_books 3 l')
      (xmit_pkt (sample_for (xmit_pkt_request (pos 3))) ssd 2 (pos 5) (pos 3) 0 [])
xmit_pkt-Tried_example =
    xmit_pkt-Tried (sample_for (xmit_pkt_request (pos 3))) ssd 2
      (sample_for-IsDocumented (xmit_pkt_request (pos 3))) sample-TellsApart 5 3 0 [] fresh_books
      (omega arith) (omega arith) refl refl

-- `store-pkt` with its packet at 0x7ffc0000, on a kernel that grants everything.
abbrev storing : Kernel
storing = record sample { copy_user_io = λ _ _. (0, store_pkt_io 0x7ffc0000) }

store_pkt_run : store_pkt storing ssd 2 (pos 5) 0x1000 [] ≡ (
  done (pos 0),
  freed_request 5
      ∷ unmapped_user 9
      ∷ executed (record { tag = 5; timeout = 60; flags = 2; bio = some 9 })
      ∷ set_bio_disk 9 4
      ∷ mapped_user 0x7ffc0000 1024 (pos 0)
      ∷ allocated_request (user_command ssd (store_pkt_io 0x7ffc0000)) true
      ∷ copied_from_user user_io_size
      ∷ [],
)
unfolding store_pkt ioctl submit_io submit_map submit_execute submit_run user_length
store_pkt_run = refl
