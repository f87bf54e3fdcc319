-- ===== src/Pram/Recv/Main.antt =====
-- userland-driver/tools/recv-to-pram.c, `main`: the arguments, the openings, and the endless loop.
pub mod Loop
pub mod Order
pub mod Live
pub mod Own
pub mod Whole
pub mod Books
mod Tests
use nvpkt.Base.{
  ℕ, zero, suc, ◌+◌, ◌-◌, Bool, true, false, ◌==◌, ◌&&◌, Option, none, some, List, [], ◌∷◌, ◌++◌,
  leb, ltb, ltb_ℤ, if◌then◌else◌, ℤ, pos, negsuc,
}
use nvpkt.Args.{Text, codes, Opt, flag, value, bad, takes, getopt, each}
use nvpkt.Netmap.{Netmap}
use nvpkt.Pram.Calls.{Call, nm_opened, opened, mapped, nm_closed, Log}
use nvpkt.Pram.Phys.{Pagemap, phy_addr}
use nvpkt.Pram.Recv.{
  Rings, Shown, Drained, no_fuel, exited, emptied, init_nm_rx_ring_for_phy, flush, drain_rings,
}

-- `nm_name` and `no_p2pmem`
pub record Settings : Type 0 where
  pub nm_name : Option Text
  pub no_p2pmem : Bool

-- One case of the switch; `none` is the return of 1.
unfoldable pub set_option : Settings → Opt → Option Settings
set_option s bad = none
set_option s (flag c) = if c == b'n' then some (record s { no_p2pmem = true }) else none
set_option s (value c arg) = if c == b'i' then some (record s { nm_name = some arg }) else none

abbrev pub option_string : ℕ → Option Bool
option_string = takes (codes "i:n")

unfoldable pub parse_args : List Text → Option Settings
parse_args args =
    each set_option (record { nm_name = none; no_p2pmem = false }) (getopt option_string args)

-- What stands outside: whether the openings succeed, /dev/p2pmmap mapped at `buf`, the pagemap,
-- netmap with the rings of the port, what NIOCRXSYNC makes of them during the flush, and what
-- NIOCRXSYNC and `poll` say and make of them in each pass of the loop.
pub record Outside : Type 0 where
  pub nm_open : Bool
  pub open_fd : ℤ
  pub mmap : Bool
  pub buf : ℕ
  pub pagemap : Pagemap
  pub netmap : Netmap
  pub netmap_buf : ℕ → ℕ → ℕ
  pub first_rx_ring : ℕ
  pub last_rx_ring : ℕ
  pub rings : Rings
  pub flush_rxsync : Rings → Rings
  pub rxsync : ℕ → Rings → ℤ × Rings
  pub poll : ℕ → Rings → ℤ × Rings

-- One pass of the loop: it jumps to `out` with `ret`, or leaves by the `exit` of `phy_addr`, or has
-- printed packets.
pub data Pass : Type 0 where
  starved : Pass
  exits : Pass
  stops : ℤ → Rings → Pass
  passes : List Shown → Rings → Pass

-- How the program is found: over, with the status and what the passes before have printed; or in
-- its loop.
pub data End : Type 0 where
  out_of_fuel : End
  invalid : End
  failed : ℤ → Log → End
  gone : List Shown → Log → End
  stopped : ℤ → List Shown → Log → End
  running : List Shown → Rings → End

-- what the emptying of the rings makes of a pass
abbrev pub to_pass : Drained Rings → Pass
to_pass no_fuel = starved
to_pass exited = exits
to_pass (emptied shown rings) = passes shown rings

-- the calls of the openings: mmap only in p2pmem mode
abbrev pub openings : Bool → Log
openings true = opened ∷ nm_opened ∷ []
openings false = mapped ∷ opened ∷ nm_opened ∷ []

module _ (o : Outside) where
  -- A pass, on fuel for the emptying of each ring. A `poll` is a failure to the code only below -1.
  unfoldable pub pass : Bool → (fuel t : ℕ) → Rings → Pass
  pass no_p2pmem fuel t rings =
      let (ret, synced) = o.rxsync t rings in
      let (ret', polled) = o.poll t synced in
      if ltb_ℤ ret (pos 0)
      then stops ret synced
      else if ltb_ℤ ret' (negsuc 0)
      then stops ret' polled
      else to_pass (
          drain_rings o.netmap no_p2pmem o.pagemap o.buf o.netmap_buf fuel
            (o.last_rx_ring + 1 - o.first_rx_ring) o.first_rx_ring polled)

  -- The loop, with the passes looked at, the number of the pass, and what has been printed.
  unfoldable pub serve : Bool → (fuel left t : ℕ) → List Shown → Rings → End
  serve no_p2pmem fuel zero t shown rings = running shown rings
  serve no_p2pmem fuel (suc left) t shown rings = elim (pass no_p2pmem fuel t rings) [
    | starved ↦ out_of_fuel
    | exits ↦ gone shown (openings no_p2pmem)
    | stops ret rings' ↦ stopped ret shown (nm_closed ∷ openings no_p2pmem)
    | passes more rings' ↦ serve no_p2pmem fuel left (t + 1) (shown ++ more) rings'
  ]

  -- behind `init_nm_rx_ring_for_phy`
  abbrev pub flushed : (fuel left : ℕ) → Option Rings → End
  flushed fuel left none = gone [] (openings false)
  flushed fuel left (some rings) =
      serve false fuel left 0 [] (flush o.flush_rxsync o.first_rx_ring o.last_rx_ring rings)

  -- behind the `memset` and its own `phy_addr`
  abbrev pub addressed : (fuel left : ℕ) → Option ℕ → End
  addressed fuel left none = gone [] (openings false)
  addressed fuel left (some paddr) =
      flushed fuel left (init_nm_rx_ring_for_phy o.netmap o.pagemap o.buf o.last_rx_ring o.rings)

  -- the openings, as they turn out
  unfoldable pub open_all : (fuel left : ℕ) → (no_p2pmem nm_open no_fd mmap : Bool) → End
  open_all fuel left _ false _ _ = failed (negsuc 0) []
  open_all fuel left _ true true _ = failed o.open_fd (nm_closed ∷ nm_opened ∷ [])
  open_all fuel left true true false _ = serve true fuel left 0 [] o.rings
  open_all fuel left false true false false = failed (pos 1) (nm_closed ∷ opened ∷ nm_opened ∷ [])
  open_all fuel left false true false true = addressed fuel left (phy_addr o.pagemap o.buf)

  unfoldable pub run : (fuel left : ℕ) → Option Settings → End
  run fuel left none = invalid
  run fuel left (some s) = open_all fuel left s.no_p2pmem o.nm_open (ltb_ℤ o.open_fd (pos 0)) o.mmap

  unfoldable pub main : (fuel left : ℕ) → List Text → End
  main fuel left args = run fuel left (parse_args args)
