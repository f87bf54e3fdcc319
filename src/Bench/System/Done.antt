-- ===== src/Bench/System/Done.antt =====
-- userland-driver/tools/bench-nvme.c: the i/os that a thread has seen done in time, and its counter.
use nvpkt.Base.{ℕ, zero, suc, ◌+◌, ◌≤◌, ◌≡◌, refl, Bool, true, false, [], ◌∷◌, u64, arith}
use nvpkt.Bench.Thread.{
  BenchParam, Outside, Thread, Log, allocated, polled, zeroed, alloc_bufs, begin, poll_one,
}
use nvpkt.Bench.Args.{Config, param}
use nvpkt.Bench.Main.{Machine}
use nvpkt.Bench.System.{Pc, waiting, created, head, exited, submitting, polling, work}

abbrev pub done_ios : Log → ℕ
done_ios [] = 0
done_ios (polled b true ∷ l) = done_ios l + 1
done_ios (polled b false ∷ l) = done_ios l
done_ios (_ ∷ l) = done_ios l

abbrev pub is_fresh : Pc → Bool
is_fresh waiting = true
is_fresh created = true
is_fresh _ = false

-- The counter is right, as a machine word; before the thread begins, nothing is done.
pub record Counted (pc : Pc) (th : Thread) : Type 0 where
  pub counted : th.count ≡ u64 (done_ios th.log)
  pub fresh : is_fresh pc ≡ true → done_ios th.log ≡ 0

alloc_bufs-done :
    (p : BenchParam) (o : Outside) (qid left : ℕ) (th : Thread)
    → ((alloc_bufs p o qid left th).count ≡ th.count)
      × (done_ios (alloc_bufs p o qid left th).log ≡ done_ios th.log)
unfolding alloc_bufs
alloc_bufs-done p o qid zero th = (refl, refl)
alloc_bufs-done p o qid (suc left) th =
    alloc_bufs-done p o qid left (record th { log = allocated ∷ th.log })

begin-done :
    (p : BenchParam) (o : Outside) (qid slba : ℕ)
    → ((begin p o qid slba).count ≡ 0) × (done_ios (begin p o qid slba).log ≡ 0)
unfolding begin
begin-done p o qid slba = alloc_bufs-done p o qid p.batch (zeroed slba)

poll_one-done :
    (p : BenchParam) (o : Outside) (qid round b : ℕ) (th : Thread)
    → th.count ≡ u64 (done_ios th.log)
    → let th' = poll_one p o qid round b th in
      (th'.count ≡ u64 (done_ios th'.log)) × (done_ios th.log ≤ done_ios th'.log)
poll_one-done p o qid round b th e = ground arith

module _ (m : Machine) (p : Config) where
  -- A step of a thread keeps its counter right, and takes back nothing that was done.
  pub work-Counted :
      (n : ℕ) (caught : Bool) (pc : Pc) (r : ℕ) (th : Thread)
      → Counted pc th
      → let w = work m p n caught (record { pc = pc; round = r; thread = th }) in
        Counted w.pc w.thread × (done_ios th.log ≤ done_ios w.thread.log)
  unfolding work
  work-Counted n caught waiting r th c = (c, omega arith)
  work-Counted n caught created r th c =
      let (none_counted, none_done) = begin-done (param p) (m.outside n) n th.lba in
      let before = c.fresh refl in
      (
        record { counted = omega (arith, none_counted, none_done); fresh = λ f. cc },
        omega (arith, before),
      )
  work-Counted n true head r th c = (record { counted = c.counted; fresh = λ f. cc }, omega arith)
  work-Counted n false head r th c = (record { counted = c.counted; fresh = λ f. cc }, omega arith)
  work-Counted n caught exited r th c = (c, omega arith)
  work-Counted n caught (submitting zero b) r th c =
      (record { counted = c.counted; fresh = λ f. cc }, omega arith)
  work-Counted n caught (submitting (suc left) b) r th c =
      (record { counted = c.counted; fresh = λ f. cc }, omega arith)
  work-Counted n caught (polling zero b) r th c =
      (record { counted = c.counted; fresh = λ f. cc }, omega arith)
  work-Counted n caught (polling (suc left) b) r th c =
      let (counted, more) = poll_one-done (param p) (m.outside n) n r b th c.counted in
      (record { counted = counted; fresh = λ f. cc }, more)
