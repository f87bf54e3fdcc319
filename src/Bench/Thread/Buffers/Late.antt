-- ===== src/Bench/Thread/Buffers/Late.antt =====
-- userland-driver/tools/bench-nvme.c, `bench_start`: what an i/o that is not done in time does to its
-- buffer.
use nvpkt.Base.{
  ℕ, zero, suc, ◌+◌, ◌<◌, ◌≤◌, ◌≡◌, refl, ap, ◌∙◌, subst, some, Bool, true, false, not, Bool-cases,
  inl, inr, List, [], ◌∷◌, ◌++◌, ltb, leb, ◌==◌, ◌&&◌, if◌then◌else◌, is_zero_ℤ, arith,
}
use nvpkt.Bench.Thread.{
  BenchParam, Outside, Thread, Log, submitted, polled, submit, poll, rounds, bench_start,
}
use nvpkt.Bench.Thread.Buffers.{Buffers, buffers, busy_from, started, idle-busy_from, submit-busy}

-- The log goes on from an earlier one.
abbrev Extends : (before now : Log) → Type 0
Extends before now = (later : Log) × (now ≡ later ++ before)

append_assoc : {A : Type 0} → (xs ys zs : List A) → xs ++ (ys ++ zs) ≡ (xs ++ ys) ++ zs
append_assoc [] ys zs = refl
append_assoc (x ∷ xs) ys zs = ap (λ l. x ∷ l) (append_assoc xs ys zs)

module _ (p : BenchParam) (o : Outside) (qid : ℕ) where
  submit-Extends : (left b : ℕ) (th : Thread) → Extends (th.log) ((submit p o qid left b th).log)
  unfolding submit
  submit-Extends zero b th = ([], refl)
  submit-Extends (suc left) b th =
      let (later, e) = submit-Extends left (b + 1) _ in
      (later ++ (submitted b ∷ []), e ∙ append_assoc later (submitted b ∷ []) (th.log))

  poll-Extends :
      (round left b : ℕ) (th : Thread) → Extends (th.log) ((poll p o qid round left b th).log)
  unfolding poll
  poll-Extends round zero b th = ([], refl)
  poll-Extends round (suc left) b th = elim (Bool-cases (is_zero_ℤ (o.apoll round b))) [
    | inl hit ↦
        rw (poll, hit)
          (let (later, e) = poll-Extends round left (b + 1) _ in
            (later ++ (polled b true ∷ []), e ∙ append_assoc later (polled b true ∷ []) (th.log)))
    | inr late ↦
        rw (poll, late)
          (let (later, e) = poll-Extends round left (b + 1) _ in
            (later ++ (polled b false ∷ []), e ∙ append_assoc later (polled b false ∷ []) (th.log)))
  ]

  -- The device has an i/o on the first buffer and on those from `b` on; no rule was broken.
  record BusyAt (b : ℕ) (l : Log) : Type 0 where
    now : Buffers
    kept : buffers l ≡ some now
    count : now.count ≡ p.batch
    first : now.busy 0 ≡ true
    others : (i : ℕ) → b ≤ i → i < p.batch → now.busy i ≡ true

  polled-BusyAt :
      (b : ℕ) (done : Bool) (l : Log)
      → 0 < b
      → b < p.batch
      → BusyAt b l
      → BusyAt (b + 1) (polled b done ∷ l)
  unfolding buffers
  polled-BusyAt b done l some_b small h = record {
    now = record { count = h.now.count; busy = λ i. if i == b then not done else h.now.busy i };
    kept = rw (h.kept, h.others b (omega arith) small) refl;
    count = h.count;
    first = let other : (0 == b) ≡ false = ground arith in rw other h.first;
    others = λ i le lt.
        let other : (i == b) ≡ false = ground arith in rw other (h.others i (omega arith) lt);
  }

  poll-BusyAt :
      (round left b : ℕ) (th : Thread)
      → 0 < b
      → b + left ≡ p.batch
      → BusyAt b (th.log)
      → BusyAt p.batch ((poll p o qid round left b th).log)
  unfolding poll
  poll-BusyAt round zero b th some_b e h = subst (λ n. BusyAt n (th.log)) (omega (arith, e)) h
  poll-BusyAt round (suc left) b th some_b e h = elim (Bool-cases (is_zero_ℤ (o.apoll round b))) [
    | inl hit ↦
        rw (poll, hit)
          (poll-BusyAt round left (b + 1) _ (omega arith) (omega arith)
            (polled-BusyAt b true _ some_b (omega arith) h))
    | inr late ↦
        rw (poll, late)
          (poll-BusyAt round left (b + 1) _ (omega arith) (omega arith)
            (polled-BusyAt b false _ some_b (omega arith) h))
  ]

  late-BusyAt :
      (l : Log)
      → 0 < p.batch
      → buffers l ≡ some (busy_from p.batch 0 p.batch)
      → BusyAt 1 (polled 0 false ∷ l)
  unfolding buffers
  late-BusyAt l some_batch h = record {
    now = record {
      count = p.batch;
      busy = λ i. if i == 0 then not false else leb 0 i && ltb i p.batch;
    };
    kept = let busy : (leb 0 0 && ltb 0 p.batch) ≡ true = ground arith in rw (h, busy) refl;
    count = refl;
    first = refl;
    others = λ i le lt. ground arith;
  }

  -- the first round, of which the first i/o is late
  late_round-BusyAt :
      (left : ℕ) (th : Thread)
      → left ≡ p.batch
      → 0 < left
      → is_zero_ℤ (o.apoll 0 0) ≡ false
      → buffers (th.log) ≡ some (busy_from p.batch 0 p.batch)
      → BusyAt p.batch ((poll p o qid 0 left 0 th).log)
  unfolding poll
  late_round-BusyAt zero th e more late h = absurd (omega arith)
  late_round-BusyAt (suc left) th e more late h =
      rw (poll, late)
        (poll-BusyAt 0 left (0 + 1) _ (omega arith) (omega arith) (late-BusyAt _ (omega arith) h))

  -- A round begins with the first buffer.
  round-first :
      (round left : ℕ) (th : Thread)
      → 0 < left
      → (later : Log) × ((poll p o qid round p.batch 0 (submit p o qid left 0 th)).log
          ≡ later ++ (submitted 0 ∷ th.log))
  unfolding submit
  round-first round zero th more = absurd (omega arith)
  round-first round (suc left) th more =
      let (later, e) = poll-Extends round p.batch 0 (submit p o qid (suc left) 0 th) in
      let (sooner, e') = submit-Extends left (0 + 1) _ in
      (
        later ++ sooner,
        e ∙ ap (λ l. later ++ l) e' ∙ append_assoc later sooner (submitted 0 ∷ th.log),
      )

  -- With a batch of at least 1, when the i/o on the first buffer is not done in time in the first
  -- of two rounds: after events in which every buffer was used as it may be, and which leave as
  -- many buffers allocated as a batch has and an i/o on the first one under way, that buffer is
  -- handed to the device once more.
  pub bench_start-spoiled :
      (slba : ℕ)
      → 0 < p.batch
      → is_zero_ℤ (o.apoll 0 0) ≡ false
      → (later : Log) × (before : Log) × (now : Buffers) × ((bench_start p o qid slba 2).log
          ≡ later ++ (submitted 0 ∷ before))
        × (buffers before ≡ some now)
        × (now.count ≡ p.batch)
        × (now.busy 0 ≡ true)
  unfolding bench_start rounds
  bench_start-spoiled slba some_batch late =
      let busy = late_round-BusyAt p.batch _ refl some_batch late (
        submit-busy p o qid p.batch 0 _ (omega arith)
          (started p o qid slba ∙ idle-busy_from p o qid)) in
      let (later, e) = round-first (0 + 1) p.batch _ some_batch in
      (later, _, busy.now, e, busy.kept, busy.count, busy.first)
