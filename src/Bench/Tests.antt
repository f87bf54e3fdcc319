-- ===== src/Bench/Tests.antt =====
-- The benchmark's walks, clock and threads at concrete inputs.
use nvpkt.Base.{
  [], sum, ◌+◌, ◌*◌, ◌%◌, some, refl, true, ◌∷◌, ◌++◌, negsuc, List, ◌^◌, ◌-◌, ℕ, zero, suc, ◌≡◌,
  false, ℤ, pos, length, arith,
}
use nvpkt.Args.{Text, codes, getopt, cluster}
use nvpkt.Args.Numbers.{atoi, strtol, strip, unsigned_value, digits}
use nvpkt.Bench.Args.{Config, initial, parse_args, set_option, set_size}
use nvpkt.Bench.Args.Bounds.{IsInBounds, parse_args-IsInBounds}
use nvpkt.Bench.Args.Report.{print_p, rows, command_of, parse_args-print_p}
use nvpkt.Bench.Args.Print.{command_line, parse_args-command_line}
use nvpkt.Bench.Main.{Machine, overrun, main}
use nvpkt.Bench.Main.Overrun.{main-overrun}
use nvpkt.Bench.Interval.{report_interval, sum_from}
use nvpkt.Bench.Interval.Reports.{report_interval_lem}
use nvpkt.Bench.Walk.{random, seq, blocks_of}
use nvpkt.Bench.Walk.Seq.{walk_from_zero, walk_from_zero_lem}
use nvpkt.Bench.Thread.{BenchParam, Outside, Log, submitted, bench_start}
use nvpkt.Bench.Thread.Buffers.{Buffers, buffers}
use nvpkt.Bench.Thread.Buffers.Late.{bench_start-spoiled}
use nvpkt.Bench.Thread.Counts.{AllFit, bench_start_lem}

-- A device of 20 blocks: 0, 3, 6, 9, 12, 15, and again 0.
walk_from_zero_lem_example : walk_from_zero 20 3 8 ≡ 6
walk_from_zero_lem_example = walk_from_zero_lem 20 3 8 (omega arith) (omega arith) (omega arith)

abbrev param : BenchParam
param = record { write = false; walk = seq; size = 4096; batch = 2 }

-- The second i/o of each batch is not done in time.
abbrev apoll : ℕ → ℕ → ℤ
apoll round zero = pos 0
apoll round (suc _) = pos 1

abbrev outside : Outside
outside = record { rand = λ n. n; apoll = apoll }

bench_start_lem_example :
    let th = bench_start param outside 0 0 3 in
    AllFit 8 th.ios × (length th.ios ≡ 6) × (th.count ≡ 3) × (th.bytes ≡ 12288)
unfolding blocks_of
bench_start_lem_example = bench_start_lem param outside 0 (omega arith) 0 3 (omega arith)

-- bench-nvme -m write -w seq -s 4096 -b 2 -n 2 -t 10 -p 06:00.0
abbrev arguments : List Text
arguments = command_line true seq 4096 2 2 10 (codes "06:00.0")

abbrev asked : Config
asked = record {
  write = true;
  walk = seq;
  size = pos 4096;
  batch = pos 2;
  ncpus = pos 2;
  time = pos 10;
  pci = some (codes "06:00.0");
  verbose_level = 0;
}

arguments_parsed : parse_args (pos 8) arguments ≡ some asked
arguments_parsed =
    parse_args-command_line 8 true seq 4096 2 2 10 (codes "06:00.0") (omega arith) (omega arith)
      (omega arith) (omega arith) (omega arith) (omega arith)

parse_args-print_p_example : parse_args (pos 8) (command_of (rows (print_p asked))) ≡ some asked
parse_args-print_p_example =
    parse_args-print_p 8 true seq 4096 2 2 10 (codes "06:00.0") refl (omega arith) (omega arith)
      (omega arith) (omega arith) (omega arith) (omega arith)

parse_args-IsInBounds_example : IsInBounds (pos 8) asked
parse_args-IsInBounds_example = parse_args-IsInBounds (pos 8) arguments asked arguments_parsed

-- Letters in one argument, an argument in the same one, and a negative time, which is accepted.
parse_args_run :
    parse_args (pos 8) (codes "-vs1024" ∷ codes "-t" ∷ codes "-5" ∷ [])
    ≡ some (record initial { size = pos 1024; time = negsuc 4; verbose_level = 1 })
unfolding parse_args set_option set_size getopt cluster atoi strtol strip unsigned_value digits
parse_args_run = refl

abbrev machine : ℕ → Machine
machine online = record { online = pos online; outside = λ _. outside; passes = λ _. 3 }

main-overrun_example :
    main (machine 64) (command_line false random 512 1 48 1 (codes "06:00.0")) ≡ overrun
main-overrun_example =
    main-overrun (machine 64) 64 false random 512 1 48 1 (codes "06:00.0") refl (omega arith)
      (omega arith) (omega arith) (omega arith) (omega arith) (omega arith)

-- None is done in time.
abbrev late : Outside
late = record outside { apoll = λ _ _. pos 1 }

bench_start-spoiled_example :
    (later : Log) × (before : Log) × (now : Buffers) × ((bench_start param late 0 0 2).log
      ≡ later ++ (submitted 0 ∷ before))
    × (buffers before ≡ some now)
    × (now.count ≡ 2)
    × (now.busy 0 ≡ true)
bench_start-spoiled_example = bench_start-spoiled param late 0 0 (omega arith) refl

-- Counters that wrap behind the first reading.
abbrev reading : ℕ → ℕ → ℕ
reading t n = (2 ^ 64 - 5 + 10 * t + n) % 2 ^ 64

report_interval_lem_example :
    (sum (report_interval 2 reading 2 0) % 2 ^ 64 ≡ 40)
    × (sum_from (reading 4) 2 0 % 2 ^ 64
        ≡ (sum_from (reading 0) 2 0 + (sum (report_interval 2 reading 2 0) + 40)) % 2 ^ 64)
report_interval_lem_example = report_interval_lem 2 reading (λ t n. 10) 2 0 (λ t n. omega arith)
