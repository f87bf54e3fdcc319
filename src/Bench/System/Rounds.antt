-- ===== src/Bench/System/Rounds.antt =====
-- userland-driver/tools/bench-nvme.c, `bench_start` in steps: where a thread is, and what it has left
-- to do of its round.
use nvpkt.Base.{ℕ, zero, suc, ◌+◌, ◌≡◌, ap, sym, ◌∙◌, Bool, true, false, pos_part, arith}
use nvpkt.Bench.Thread.{BenchParam, Outside, Thread, zeroed, begin, submit, poll, rounds}
use nvpkt.Bench.Walk.{start_lba}
use nvpkt.Bench.Args.{Config, param}
use nvpkt.Bench.Main.{Machine}
use nvpkt.Bench.System.{Pc, waiting, created, head, exited, submitting, polling, batch, work}

module _ (p : BenchParam) (o : Outside) (qid : ℕ) where
  -- one round
  abbrev one_round : ℕ → Thread → Thread
  one_round k th = poll p o qid k p.batch 0 (submit p o qid p.batch 0 th)

  -- The last of some rounds, instead of the first.
  rounds-suc :
      (r k i : ℕ) (th : Thread)
      → k + r ≡ i
      → rounds p o qid (suc r) k th ≡ one_round i (rounds p o qid r k th)
  unfolding rounds
  rounds-suc zero k i th e = let f : k ≡ i = omega arith in ap (λ j. one_round j th) f
  rounds-suc (suc r) k i th e = rounds-suc r (k + 1) i (one_round k th) (omega arith)

module _ (m : Machine) (p : Config) where
  -- thread `n` behind `r` rounds
  abbrev pub behind : (n r : ℕ) → Thread
  behind n r =
      rounds (param p) (m.outside n) n r 0
        (begin (param p) (m.outside n) n (start_lba (pos_part p.ncpus) n))

  -- What is left of the round leads to where the code without other threads goes.
  abbrev pub At : (n : ℕ) → Pc → (round : ℕ) → Thread → Type 0
  At n waiting r th = (r ≡ 0) × (th ≡ zeroed 0)
  At n created r th = (r ≡ 0) × (th ≡ zeroed (start_lba (pos_part p.ncpus) n))
  At n head r th = th ≡ behind n r
  At n exited r th = th ≡ behind n r
  At n (submitting left b) r th =
      submit (param p) (m.outside n) n left b th
      ≡ submit (param p) (m.outside n) n (batch m p) 0 (behind n r)
  At n (polling left b) r th = poll (param p) (m.outside n) n r left b th ≡ behind n (suc r)

  pub work-At :
      (n : ℕ) (caught : Bool) (pc : Pc) (r : ℕ) (th : Thread)
      → At n pc r th
      → let w = work m p n caught (record { pc = pc; round = r; thread = th }) in
        At n w.pc w.round w.thread
  unfolding work submit poll rounds
  work-At n caught waiting r th a = a
  work-At n caught created r th (e, f) =
      ap (begin (param p) (m.outside n) n) (ap (λ t. t.lba) f) ∙ ap (behind n) (sym e)
  work-At n true head r th a = a
  work-At n false head r th a = ap (submit (param p) (m.outside n) n (batch m p) 0) a
  work-At n caught exited r th a = a
  work-At n caught (submitting zero b) r th a =
      ap (poll (param p) (m.outside n) n r (batch m p) 0) a
      ∙ sym (
          rounds-suc (param p) (m.outside n) n r 0 r
            (begin (param p) (m.outside n) n (start_lba (pos_part p.ncpus) n)) (omega arith))
  work-At n caught (submitting (suc left) b) r th a = a
  work-At n caught (polling zero b) r th a =
      let e : suc r ≡ r + 1 = omega arith in a ∙ ap (behind n) e
  work-At n caught (polling (suc left) b) r th a = a
