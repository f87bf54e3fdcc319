-- ===== src/Bench/Args.antt =====
-- userland-driver/tools/bench-nvme.c, `main`: the arguments, and the test behind the loop.
pub mod Bounds
pub mod Print
pub mod Report
use nvpkt.Base.{
  ℕ, suc, Bool, true, false, ◌||◌, ◌==◌, Option, none, some, List, ltb_ℤ, if◌then◌else◌, ℤ, pos,
  pos_part,
}
use nvpkt.Args.{Text, codes, starts_with, Opt, flag, value, bad, takes, getopt, each}
use nvpkt.Args.Numbers.{atoi}
use nvpkt.Bench.Walk.{Walk, random, seq, same}
use nvpkt.Bench.Thread.{BenchParam}

-- `struct bench_param p` and `verbose_level`
pub record Config : Type 0 where
  pub write : Bool  -- mode
  pub walk : Walk
  pub size : ℤ
  pub batch : ℤ
  pub ncpus : ℤ
  pub time : ℤ
  pub pci : Option Text
  pub verbose_level : ℕ

abbrev pub initial : Config
initial = record {
  write = false;
  walk = random;
  size = pos 64;
  batch = pos 1;
  ncpus = pos 1;
  time = pos 1;
  pci = none;
  verbose_level = 0;
}

-- MAX_BATCH_SIZE and MAX_CPU_NUM
abbrev pub max_batch_size : ℤ
max_batch_size = pos 258

abbrev pub max_cpu_num : ℕ
max_cpu_num = 32

abbrev pub option_string : ℕ → Option Bool
option_string = takes (codes "m:w:s:b:p:n:t:v")

unfoldable pub set_mode : Config → Text → Option Config
set_mode p arg =
    if starts_with arg (codes "read")
    then some (record p { write = false })
    else if starts_with arg (codes "write")
    then some (record p { write = true })
    else none

unfoldable pub set_walk : Config → Text → Option Config
set_walk p arg =
    if starts_with arg (codes "random")
    then some (record p { walk = random })
    else if starts_with arg (codes "seq")
    then some (record p { walk = seq })
    else if starts_with arg (codes "same")
    then some (record p { walk = same })
    else none

unfoldable pub set_size : Config → ℤ → Option Config
set_size p size = if ltb_ℤ size (pos 0) then none else some (record p { size = size })

unfoldable pub set_batch : Config → ℤ → Option Config
set_batch p batch =
    if ltb_ℤ batch (pos 0) || ltb_ℤ max_batch_size batch
    then none
    else some (record p { batch = batch })

-- `count_online_cpus` counts the cpus of the process, and is -1 if it cannot.
unfoldable pub set_ncpus : (online : ℤ) → Config → ℤ → Option Config
set_ncpus online p ncpus =
    if ltb_ℤ ncpus (pos 1) || ltb_ℤ online ncpus then none else some (record p { ncpus = ncpus })

-- One case of the switch; an invalid time is only printed.
unfoldable pub set_option : (online : ℤ) → Config → Opt → Option Config
set_option online p bad = none
set_option online p (flag c) =
    if c == b'v' then some (record p { verbose_level = suc p.verbose_level }) else none
set_option online p (value c arg) =
    if c == b'm'
    then set_mode p arg
    else if c == b'w'
    then set_walk p arg
    else if c == b's'
    then set_size p (atoi arg)
    else if c == b'b'
    then set_batch p (atoi arg)
    else if c == b'n'
    then set_ncpus online p (atoi arg)
    else if c == b't'
    then some (record p { time = atoi arg })
    else if c == b'p'
    then some (record p { pci = some arg })
    else none

-- `none` is the return of -1.
unfoldable pub parse_args : (online : ℤ) → List Text → Option Config
unfolding set_option
parse_args online args = each (set_option online) initial (getopt option_string args)

-- what a thread reads of it
abbrev pub param : Config → BenchParam
param p = record {
  write = p.write;
  walk = p.walk;
  size = pos_part p.size;
  batch = pos_part p.batch;
}
