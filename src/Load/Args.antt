-- ===== src/Load/Args.antt =====
-- userland-driver/tools/load-and-xmit.c, `main`: the arguments, and the whole program.
pub mod Batch
pub mod Print
use nvpkt.Base.{
  ℕ, Bool, true, false, ◌==◌, Option, none, some, List, ltb_ℤ, if◌then◌else◌, ℤ, pos, negsuc,
  to_u64,
}
use nvpkt.Args.{Text, codes, Opt, flag, value, bad, takes, getopt, each}
use nvpkt.Args.Numbers.{atoi, strtol}
use nvpkt.Load.{Outside, Body, State, main}

-- `struct body`, which is all zero at first, and `use_build_pkt`
pub record Settings : Type 0 where
  pub nm_name : Option Text
  pub nvme_pci : Option Text
  pub nblocks : ℤ
  pub slba : ℕ
  pub count : ℤ
  pub usleep : ℤ
  pub batch_size : ℤ
  pub use_build_pkt : Bool

abbrev pub initial : Settings
initial = record {
  nm_name = none;
  nvme_pci = none;
  nblocks = pos 0;
  slba = 0;
  count = pos 0;
  usleep = pos 0;
  batch_size = pos 1;
  use_build_pkt = false;
}

abbrev pub option_string : ℕ → Option Bool
option_string = takes (codes "i:s:n:p:c:u:b")

unfoldable pub set_nblocks : Settings → ℤ → Option Settings
set_nblocks s n = if ltb_ℤ n (pos 0) then none else some (record s { nblocks = n })

-- One case of the switch; `none` is the return of -1.
unfoldable pub set_option : Settings → Opt → Option Settings
set_option s bad = none
set_option s (flag c) = if c == b'b' then some (record s { use_build_pkt = true }) else none
set_option s (value c arg) =
    if c == b'i'
    then some (record s { nm_name = some arg })
    else if c == b's'
    then some (record s { slba = to_u64 (strtol 0 arg) })
    else if c == b'n'
    then set_nblocks s (atoi arg)
    else if c == b'p'
    then some (record s { nvme_pci = some arg })
    else if c == b'c'
    then some (record s { count = atoi arg })
    else if c == b'u'
    then some (record s { usleep = atoi arg })
    else if c == b'B'
    then some (record s { batch_size = atoi arg })
    else none

unfoldable pub parse_args : List Text → Option Settings
parse_args args = each set_option initial (getopt option_string args)

abbrev pub body_of : Settings → Body
body_of s = record {
  nblocks = s.nblocks;
  slba = s.slba;
  count = s.count;
  use_build_pkt = s.use_build_pkt;
}

module _ (o : Outside) where
  -- with the arguments as they were read
  unfoldable pub run_settings : Option Settings → State → ℤ × State
  run_settings none st = (negsuc 0, st)
  run_settings (some s) st = main o (body_of s) st

  unfoldable pub load_and_xmit : List Text → State → ℤ × State
  load_and_xmit args = run_settings (parse_args args)
