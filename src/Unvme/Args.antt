-- ===== src/Unvme/Args.antt =====
-- userland-driver/tools/dump-nvme.c, `main`: the arguments, and the whole program.
pub mod Whole
use nvpkt.Base.{
  ℕ, ◌*◌, Bool, true, false, ◌==◌, Option, none, some, List, [], if◌then◌else◌, u64, to_u64, negsuc,
}
use nvpkt.Args.{Text, codes, Opt, flag, value, bad, takes, getopt, each}
use nvpkt.Args.Numbers.{strtol}
use nvpkt.Packet.{Buffer}
use nvpkt.Unvme.{Outside, End, dump_nvme}

-- The variables that the options set; `none` is one that was never set.
pub record Settings : Type 0 where
  pub pci : Option Text
  pub slba : Option ℕ
  pub nblocks : Option ℕ

abbrev pub initial : Settings
initial = record { pci = none; slba = none; nblocks = none }

abbrev pub option_string : ℕ → Option Bool
option_string = takes (codes "p:s:n:")

-- One case of the switch; `none` is the return of -1.
unfoldable pub set_option : Settings → Opt → Option Settings
set_option s bad = none
set_option s (flag c) = none
set_option s (value c arg) =
    if c == b'p'
    then some (record s { pci = some arg })
    else if c == b's'
    then some (record s { slba = some (to_u64 (strtol 0 arg)) })
    else if c == b'n'
    then some (record s { nblocks = some (to_u64 (strtol 0 arg)) })
    else none

unfoldable pub parse_args : List Text → Option Settings
parse_args args = each set_option initial (getopt option_string args)

-- How the program ends, or that it reads a variable that was never set.
pub data Ending : Type 0 where
  unset : Ending
  ended : End → Ending

module _ (o : Outside) where
  -- `slba` is read once the buffer is there
  unfoldable pub run_allocated : (nblocks : ℕ) → Option ℕ → Option Buffer → Ending
  run_allocated nblocks (some slba) _ = ended (dump_nvme o slba nblocks)
  run_allocated nblocks none (some buf) = unset
  run_allocated nblocks none none = ended (dump_nvme o 0 nblocks)

  -- `nblocks` is read once the device is open
  unfoldable pub run_opened : Settings → (unvme_open : Bool) → Option ℕ → Ending
  run_opened s false _ = ended (dump_nvme o 0 0)
  run_opened s true none = unset
  run_opened s true (some nblocks) =
      run_allocated nblocks s.slba (o.unvme_alloc (u64 (nblocks * 512)))

  unfoldable pub run_named : Settings → Option Text → Ending
  run_named s none = unset
  run_named s (some pci) = run_opened s o.unvme_open s.nblocks

  unfoldable pub run_parsed : Option Settings → Ending
  run_parsed none = ended (record { ret = negsuc 0; log = []; text = [] })
  run_parsed (some s) = run_named s s.pci

  unfoldable pub dump_nvme_main : List Text → Ending
  dump_nvme_main args = run_parsed (parse_args args)
