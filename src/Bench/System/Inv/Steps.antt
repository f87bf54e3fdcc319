-- ===== src/Bench/System/Inv/Steps.antt =====
-- userland-driver/tools/bench-nvme.c: every step of `main` and of its threads keeps what holds at any
-- moment.
use nvpkt.Base.{ℕ, zero, suc, ◌+◌, ◌≡◌, refl, ap, ◌∙◌, subst, true, pos_part, arith}
use nvpkt.Bench.Args.{Config}
use nvpkt.Bench.Main.{Machine}
use nvpkt.Bench.System.{
  counters_of, exited, is_waiting, is_running, testing, gone, is_active, MainPc, creating, joining,
  sleeping, joining_reporter, closed, System, set_worker, work, report, create, Step, creates,
  reports, wakes, joins, all_joined, closes, works, counts, Reach, at_start, after,
}
use nvpkt.Bench.System.Inv.{
  set_worker-all, joined-next, is_joining, is_creating, InPlace, Good, Inv, started-Inv, work-Good,
  waiting-round, Good-moved, goods, report-pc,
}

module _ (m : Machine) (p : Config) where
  creates-Inv :
      {s : System} (left n : ℕ)
      → s.main ≡ creating (suc left) n
      → Inv m p s
      → Inv m p (record s {
        main = creating left (n + 1);
        workers = set_worker s.workers n (create m p n (s.workers n));
      })
  creates-Inv {s} left n e v =
      let place : n + suc left ≡ pos_part p.ncpus =
        subst (InPlace (pos_part p.ncpus)) e v.in_place in
      let g = goods m p v e n in
      let unused : is_waiting (s.workers n).pc ≡ true = g.created ∙ ground arith in
      let rounds =
        waiting-round m p n (s.workers n).pc (s.workers n).round (s.workers n).thread unused
          g.placed in
      record {
        workers =
            set_worker-all (Good m p (creating left (n + 1)) s.caught_signal) s.workers n
              (create m p n (s.workers n))
              (record {
                placed = (rounds, refl);
                created = ground arith;
                joined = λ h. absurd (omega (arith, h));
                stopped = λ f. cc;
              })
              (λ i ne.
                Good-moved m p (goods m p v e i) (ground (arith, ne))
                  (λ h. absurd (omega (arith, h))));
        in_place = omega (arith, place);
        caught = v.caught ∙ ap is_joining e;
        born = v.born ∙ ap is_creating e;
        over = λ f. cc;
      }

  reports-Inv :
      {s : System} (n : ℕ)
      → s.main ≡ creating zero n
      → Inv m p s
      → Inv m p (record s { main = sleeping; reporter = record s.reporter { pc = testing } })
  reports-Inv {s} n e v =
      let place : n + 0 ≡ pos_part p.ncpus = subst (InPlace (pos_part p.ncpus)) e v.in_place in
      record {
        workers = λ i.
            Good-moved m p (goods m p v e i) (ground (arith, place))
              (λ h. absurd (omega (arith, h)));
        in_place = tt;
        caught = v.caught ∙ ap is_joining e;
        born = refl;
        over = λ f. cc;
      }

  wakes-Inv :
      {s : System}
      → s.main ≡ sleeping
      → Inv m p s
      → Inv m p (record s { main = joining (pos_part p.ncpus) 0; caught_signal = true })
  wakes-Inv {s} e v = record {
    workers = λ i.
        let g = goods m p v e i in
        record {
          placed = g.placed;
          created = g.created;
          joined = λ h. absurd (omega (arith, h));
          stopped = λ f. refl;
        };
    in_place = omega arith;
    caught = refl;
    born = v.born ∙ ap is_creating e;
    over = λ f. cc;
  }

  -- `main` goes on after a `pthread_join`.
  joined-Inv :
      {s : System} (pc pc' : MainPc)
      → s.main ≡ pc
      → (is_joining pc ≡ is_joining pc') × (is_creating pc ≡ is_creating pc')
      → InPlace (pos_part p.ncpus) pc'
      → ((n : ℕ)
          → Good m p pc s.caught_signal n (s.workers n)
          → Good m p pc' s.caught_signal n (s.workers n))
      → (pc' ≡ closed → s.reporter.pc ≡ gone)
      → Inv m p s
      → Inv m p (record s { main = pc' })
  joined-Inv pc pc' e (j, c) in_place workers over v = record {
    workers = λ n. workers n (goods m p v e n);
    in_place = in_place;
    caught = v.caught ∙ ap is_joining e ∙ j;
    born = v.born ∙ ap is_creating e ∙ c;
    over = over;
  }

  works-Inv :
      {s : System} (n : ℕ)
      → is_running (s.workers n).pc ≡ true
      → Inv m p s
      → Inv m p
          (record s { workers = set_worker s.workers n (work m p n s.caught_signal (s.workers n)) })
  works-Inv {s} n r v = record {
    workers =
        set_worker-all (Good m p s.main s.caught_signal) s.workers n
          (work m p n s.caught_signal (s.workers n))
          (work-Good m p s.main s.caught_signal n (s.workers n) r (v.workers n))
          (λ i _. v.workers i);
    in_place = v.in_place;
    caught = v.caught;
    born = v.born;
    over = v.over;
  }

  counts-Inv :
      {s : System}
      → is_active s.reporter.pc ≡ true
      → Inv m p s
      → Inv m p
          (record s { reporter = report m p s.caught_signal (counters_of s.workers) s.reporter })
  counts-Inv {s} a v = record {
    workers = v.workers;
    in_place = v.in_place;
    caught = v.caught;
    born = report-pc m p s.caught_signal (counters_of s.workers) s.reporter a ∙ v.born;
    over = λ f. absurd (let e = v.over f in ground (arith, e, a));
  }

  pub Step-Inv : {s t : System} → Step m p s t → Inv m p s → Inv m p t
  Step-Inv (creates left n e) v = creates-Inv left n e v
  Step-Inv (reports n e) v = reports-Inv n e v
  Step-Inv (wakes e) v = wakes-Inv e v
  Step-Inv {s} (joins left n e x) v =
      let place : n + suc left ≡ pos_part p.ncpus =
        subst (InPlace (pos_part p.ncpus)) e v.in_place in
      joined-Inv (joining (suc left) n) (joining left (n + 1)) e (refl, refl) (omega (arith, place))
        (λ i g.
          Good-moved m p g refl
            (λ h. joined-next n i (λ j. (s.workers j).pc ≡ exited) x g.joined h))
        (λ f. cc) v
  Step-Inv (all_joined n e) v =
      let place : n + 0 ≡ pos_part p.ncpus = subst (InPlace (pos_part p.ncpus)) e v.in_place in
      joined-Inv (joining zero n) joining_reporter e (refl, refl) tt
        (λ i g. Good-moved m p g refl (λ h. g.joined (omega (arith, place, h)))) (λ f. cc) v
  Step-Inv (closes e g) v =
      joined-Inv joining_reporter closed e (refl, refl) tt (λ i h. Good-moved m p h refl h.joined)
        (λ f. g) v
  Step-Inv (works n r) v = works-Inv n r v
  Step-Inv (counts a) v = counts-Inv a v

  pub Reach-Inv : {s : System} → Reach m p s → Inv m p s
  Reach-Inv at_start = started-Inv m p
  Reach-Inv (after r e) = Step-Inv e (Reach-Inv r)
