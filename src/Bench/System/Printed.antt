-- ===== src/Bench/System/Printed.antt =====
-- userland-driver/tools/bench-nvme.c, `report_interval` while the threads go on counting: its numbers
-- never add up to more than was done.
use nvpkt.Base.{ℕ, ◌^◌, ◌<◌, pos_part}
use nvpkt.Bench.Interval.{sum_from}
use nvpkt.Bench.Args.{Config}
use nvpkt.Bench.Main.{Machine}
use nvpkt.Bench.System.{System, Worker}
use nvpkt.Bench.System.Inv.{Inv}
use nvpkt.Bench.System.Done.{done_ios, Counted}
use nvpkt.Bench.System.Sums.{total}
use nvpkt.Bench.System.Told.{Told}

module _ (m : Machine) (p : Config) where
  -- the i/os of each thread that were done in time
  abbrev pub done_by : (ℕ → Worker) → ℕ → ℕ
  done_by ws n = done_ios (ws n).thread.log

  pub record Tally (s : System) : Type 0 where
    pub counted : (n : ℕ) → Counted (s.workers n).pc (s.workers n).thread
    pub told :
        sum_from (done_by s.workers) (pos_part p.ncpus) 0 < 2 ^ 64
        → Told (pos_part p.ncpus) (done_by s.workers) s.reporter.pc (total s.reporter.printed)
