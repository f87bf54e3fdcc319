-- ===== src/Bench/System/Tests.antt =====
-- A run of the benchmark with one thread, step by step.
use nvpkt.Base.{length, ◌≡◌, refl, true, some, List, [], ◌∷◌, pos, arith}
use nvpkt.Args.{Text, codes}
use nvpkt.Bench.Args.{Config}
use nvpkt.Bench.Args.Print.{command_line, parse_args-command_line}
use nvpkt.Bench.Main.Fits.{AllDid}
use nvpkt.Bench.Main.{Machine, finished, main}
use nvpkt.Bench.Thread.{begin, alloc_bufs}
use nvpkt.Bench.Walk.{seq}
use nvpkt.Bench.System.{
  System, Steps, none_yet, one_more, closed, creates, reports, wakes, joins, all_joined, closes,
  works, counts, Reach, at_start, after, work, report, results,
}
use nvpkt.Bench.System.Refine.{as_seen, closed-main, closed-AllDid}

abbrev machine : Machine
machine = record {
  online = pos 8;
  outside = λ _. record { rand = λ n. n; apoll = λ _ _. pos 0 };
  passes = λ _. 0;
}

-- bench-nvme -m write -w seq -s 4096 -b 1 -n 1 -t 10 -p 06:00.0
abbrev arguments : List Text
arguments = command_line true seq 4096 1 1 10 (codes "06:00.0")

abbrev asked : Config
asked = record {
  write = true;
  walk = seq;
  size = pos 4096;
  batch = pos 1;
  ncpus = pos 1;
  time = pos 10;
  pci = some (codes "06:00.0");
  verbose_level = 0;
}

-- The thread makes a round while the reporter reads its counter, then the signal is caught.
caught : (s : System) × Reach machine asked s × (s.caught_signal ≡ true)
unfolding work report
caught = (
  _,
  after
      (after
        (after
          (after
            (after
              (after
                (after
                  (after
                    (after
                      (after
                        (after
                          (after
                            (after (after (after at_start (creates 0 0 refl)) (works 0 refl))
                              (reports 1 refl))
                            (counts refl))
                          (counts refl))
                        (counts refl))
                      (works 0 refl))
                    (works 0 refl))
                  (works 0 refl))
                (works 0 refl))
              (works 0 refl))
            (counts refl))
          (counts refl))
        (counts refl))
      (wakes refl),
  refl,
)

-- The reporter has printed the one i/o.
caught_printed : caught.0.reporter.printed ≡ record { ios = 1; bytes = 4096 } ∷ []
unfolding caught work report begin alloc_bufs
caught_printed = refl

-- From there to the end.
ended : (t : System) × Steps machine asked 5 caught.0 t × (t.main ≡ closed)
unfolding caught work report
ended = (
  _,
  one_more
      (one_more
        (one_more (one_more (one_more none_yet (works 0 refl)) (counts refl)) (joins 0 0 refl refl))
        (all_joined 1 refl))
      (closes refl refl),
  refl,
)

finally : (s : System) × Reach machine asked s × (s.main ≡ closed)
unfolding ended caught work report
finally = (
  _,
  after
      (after (after (after (after caught.1 (works 0 refl)) (counts refl)) (joins 0 0 refl refl))
        (all_joined 1 refl))
      (closes refl refl),
  refl,
)

closed-main_example :
    main (as_seen machine finally.0.workers) arguments ≡ finished (results 1 0 finally.0.workers)
closed-main_example =
    closed-main machine asked arguments
      (parse_args-command_line 8 true seq 4096 1 1 10 (codes "06:00.0") (omega arith) (omega arith)
        (omega arith) (omega arith) (omega arith) (omega arith))
      refl (omega arith) finally.1 finally.2

closed-AllDid_example :
    (length (results 1 0 finally.0.workers) ≡ 1)
    × AllDid (as_seen machine finally.0.workers) asked 0 (results 1 0 finally.0.workers)
closed-AllDid_example = closed-AllDid machine asked (omega arith) (omega arith) finally.1 finally.2
