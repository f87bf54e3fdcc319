-- ===== src/Pram/Send/Main.antt =====
-- userland-driver/tools/xmit-from-pram.c, `main`: the arguments, the openings, and the loop.
pub mod Laws
use nvpkt.Base.{
  ℕ, ◌+◌, Bool, true, false, ◌==◌, Option, none, some, List, [], ◌∷◌, ltb_ℤ, if◌then◌else◌, ℤ, pos,
  negsuc, pos_part,
}
use nvpkt.Args.{Text, codes, Opt, flag, value, bad, takes, getopt, each}
use nvpkt.Args.Numbers.{atoi}
use nvpkt.Netmap.{Ring, Netmap}
use nvpkt.Packet.{Buffer, test_addresses, build_frame}
use nvpkt.Pram.Calls.{Call, nm_opened, opened, mapped, nm_closed, Log}
use nvpkt.Pram.Phys.{Pagemap, phy_addr}
use nvpkt.Pram.Send.{Txsync, Sent, LoopEnd, unfinished, overflown, ended, send_loop}

-- `struct body` and the variables that the options set
pub record Settings : Type 0 where
  pub nm_name : Option Text
  pub count : ℤ
  pub usleep : ℤ
  pub pktlen : ℤ
  pub no_write : Bool
  pub batch : ℤ

abbrev pub initial : Settings
initial = record {
  nm_name = none;
  count = pos 0;
  usleep = pos 0;
  pktlen = pos 512;
  no_write = false;
  batch = pos 1;
}

-- One case of the switch; `none` is the return of -1.
unfoldable pub set_option : Settings → Opt → Option Settings
set_option s bad = none
set_option s (flag c) = if c == b'n' then some (record s { no_write = true }) else none
set_option s (value c arg) =
    if c == b'i'
    then some (record s { nm_name = some arg })
    else if c == b'c'
    then some (record s { count = atoi arg })
    else if c == b'u'
    then some (record s { usleep = atoi arg })
    else if c == b'b'
    then some (record s { batch = atoi arg })
    else if c == b'l'
    then some (record s { pktlen = atoi arg })
    else none

abbrev pub option_string : ℕ → Option Bool
option_string = takes (codes "i:c:u:l:nb:")

unfoldable pub parse_args : List Text → Option Settings
parse_args args = each set_option initial (getopt option_string args)

-- What stands outside: whether the openings succeed, /dev/p2pmmap mapped at `buf` with what it holds,
-- the pagemap, netmap, the kernel at NIOCTXSYNC, and what `ret` holds before it is set.
pub record Outside : Type 0 where
  pub nm_open : Bool
  pub open_fd : ℤ
  pub mmap : Bool
  pub buf : ℕ
  pub memory : Buffer
  pub pagemap : Pagemap
  pub netmap : Netmap
  pub ring : Ring
  pub txsync : Txsync
  pub ret : ℤ

-- How the program ends: with a status, before the loop or behind it, or by the `exit(1)` of
-- `phy_addr`; or its loop is still running when the fuel is used up; or C leaves undefined what it
-- does, after a packet count that no `int` holds.
pub data End : Type 0 where
  invalid : End
  failed : Log → End
  exited : Log → End
  sent : Log → Buffer → Sent → End
  running : End
  undefined : Log → End

-- `phy_addr` and `build_pkt` as this file has them; the other tools have the same code.
abbrev pub paddr_of : Pagemap → ℕ → Option ℕ
paddr_of pm buf = phy_addr pm buf

abbrev pub build_pkt : Buffer → ℤ → Buffer
build_pkt buf len = build_frame test_addresses len buf

module _ (o : Outside) where
  -- what is in the memory when the loop begins
  abbrev pub written : Settings → Buffer
  written s = if s.no_write then o.memory else build_pkt o.memory s.pktlen

  -- behind the loop
  abbrev pub loop_end : Settings → LoopEnd → End
  loop_end s unfinished = running
  loop_end s overflown = undefined (mapped ∷ opened ∷ nm_opened ∷ [])
  loop_end s (ended end) = sent (nm_closed ∷ mapped ∷ opened ∷ nm_opened ∷ []) (written s) end

  -- behind `phy_addr`
  abbrev pub send_from : (fuel : ℕ) → Settings → Option ℕ → End
  send_from fuel s none = exited (mapped ∷ opened ∷ nm_opened ∷ [])
  send_from fuel s (some paddr) =
      loop_end s
        (send_loop o.netmap s.pktlen paddr o.txsync s.count s.batch fuel 0 0 o.ret o.ring [])

  -- the openings, as they turn out
  unfoldable pub open_all : (fuel : ℕ) → Settings → (nm_open no_fd mmap : Bool) → End
  open_all fuel s false _ _ = failed []
  open_all fuel s true true _ = failed (nm_closed ∷ nm_opened ∷ [])
  open_all fuel s true false false = failed (nm_closed ∷ opened ∷ nm_opened ∷ [])
  open_all fuel s true false true = send_from fuel s (paddr_of o.pagemap o.buf)

  unfoldable pub run : (fuel : ℕ) → Option Settings → End
  run fuel none = invalid
  run fuel (some s) = open_all fuel s o.nm_open (ltb_ℤ o.open_fd (pos 0)) o.mmap

  unfoldable pub main : (fuel : ℕ) → List Text → End
  main fuel args = run fuel (parse_args args)
