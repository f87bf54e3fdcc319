-- ===== src/Driver/Together/Tests.antt =====
-- Two processes at the same time: one sends a packet, the other runs a command of its own, and their calls
-- alternate.
use nvpkt.Base.{ℕ, zero, suc, ◌≡◌, refl, some, List, [], ◌∷◌, length, ℤ, arith}
use nvpkt.Uapi.{ioctl_txpkt, ioctl_submit_io}
use nvpkt.Driver.Kernel.{Log}
use nvpkt.Driver.Exec.{done}
use nvpkt.Driver.Sample.{sample, sample-IsDocumented, ssd}
use nvpkt.Driver.Books.{Books, audit}
use nvpkt.Driver.Skb.{first_piece, later_piece, skb_pieces, skb_from_sgvec}
use nvpkt.Driver.Bio.{bio_pieces, blk_rq_map_from_sgl}
use nvpkt.Driver.Xmit.{
  txpkt_one, txpkt_request, txpkt_map, txpkt_execute, txpkt_run, put_request, alloc_request,
  execute, transmit, copy_xmit, txpkt,
}
use nvpkt.Driver.Submit.{
  user_command, user_length, submit_io, submit_map, submit_execute, submit_run, ioctl,
}
use nvpkt.Driver.Files.{Operation, open_file, unlocked_ioctl, release_file, session, nvpkt_fops}
use nvpkt.Driver.Together.{History, calls_of, seen_by, IsRun, before_call}
use nvpkt.Driver.Together.Orderly.{Idle, together-Idle}

abbrev operations : ℕ → List Operation
operations zero = open_file ∷ unlocked_ioctl (ioctl_txpkt sample.iow) 0 ∷ release_file ∷ []
operations (suc _) = open_file ∷ unlocked_ioctl (ioctl_submit_io sample.iow) 0 ∷ release_file ∷ []

-- the calls of both in turns
abbrev alternate : Log → Log → History
alternate [] [] = []
alternate (e ∷ l) [] = (0, e) ∷ alternate l []
alternate [] (f ∷ m) = (1, f) ∷ alternate [] m
alternate (e ∷ l) (f ∷ m) = (0, e) ∷ (1, f) ∷ alternate l m

abbrev history : History
history =
    alternate (session sample ssd 2 (operations 0) []).1 (session sample ssd 2 (operations 1) []).1

history-IsRun : IsRun (λ _. sample) ssd 2 2 operations history
unfolding session nvpkt_fops ioctl txpkt copy_xmit txpkt_one txpkt_request txpkt_map txpkt_execute
    txpkt_run put_request alloc_request execute transmit skb_from_sgvec skb_pieces first_piece
    later_piece blk_rq_map_from_sgl bio_pieces submit_io submit_map submit_execute submit_run
    user_command user_length before_call
history-IsRun zero h = refl
history-IsRun (suc zero) h = refl
history-IsRun (suc (suc i)) h = absurd (omega (arith, h))

together-Idle_example :
    ((rs : List ℤ) × ((session (seen_by (λ _. sample) ssd 2 1 history) ssd 2 (operations 1) []).0
        ≡ done rs)
      × (length rs ≡ 3))
    × Idle (calls_of 1 history)
    × ((b : Books) × (audit (calls_of 1 history) ≡ some b))
together-Idle_example =
    together-Idle (λ _. sample) ssd 2 (λ _. sample-IsDocumented) (λ i l arg. omega arith) 2
      operations [] history history-IsRun 1 (omega arith)
