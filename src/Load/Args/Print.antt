-- ===== src/Load/Args/Print.antt =====
-- userland-driver/tools/load-and-xmit.c: a command line, its settings, and the run that it asks for.
use nvpkt.Base.{
  ℕ, ◌*◌, ◌<◌, ◌^◌, ◌≡◌, refl, ap, ◌∙◌, Bool, true, false, some, List, [], ◌∷◌, if◌then◌else◌, pos,
  to_u64, inl, arith,
}
use nvpkt.Args.{Text, Opt, flag, value, getopt, each}
use nvpkt.Args.Print.{decimal, atoi-decimal, strtol-decimal}
use nvpkt.Args.Line.{dash}
use nvpkt.Load.{Outside, State}
use nvpkt.Load.Run.{lbas, syncs, ascending, repeated, Succeeds, Opens, LeavesRoom}
use nvpkt.Load.Reads.{main_lem}
use nvpkt.Load.Args.{
  Settings, initial, option_string, set_nblocks, set_option, parse_args, body_of, run_settings,
  load_and_xmit,
}

-- the options with arguments, and `-b` if it is wanted
abbrev pub command_line :
    (nm_name nvme_pci : Text) (slba nblocks count usleep : ℕ) (build : Bool) → List Text
command_line nm_name nvme_pci slba nblocks count usleep build =
    dash b'i'
    ∷ nm_name
    ∷ dash b'p'
    ∷ nvme_pci
    ∷ dash b's'
    ∷ decimal slba
    ∷ dash b'n'
    ∷ decimal nblocks
    ∷ dash b'c'
    ∷ decimal count
    ∷ dash b'u'
    ∷ decimal usleep
    ∷ (if build then dash b'b' ∷ [] else [])

abbrev pub settings :
    (nm_name nvme_pci : Text) (slba nblocks count usleep : ℕ) (build : Bool) → Settings
settings nm_name nvme_pci slba nblocks count usleep build = record {
  nm_name = some nm_name;
  nvme_pci = some nvme_pci;
  nblocks = pos nblocks;
  slba = slba;
  count = pos count;
  usleep = pos usleep;
  batch_size = pos 1;
  use_build_pkt = build;
}

abbrev options : (nm_name nvme_pci : Text) (slba nblocks count usleep : ℕ) (build : Bool) → List Opt
options nm_name nvme_pci slba nblocks count usleep build =
    value b'i' nm_name
    ∷ value b'p' nvme_pci
    ∷ value b's' (decimal slba)
    ∷ value b'n' (decimal nblocks)
    ∷ value b'c' (decimal count)
    ∷ value b'u' (decimal usleep)
    ∷ (if build then flag b'b' ∷ [] else [])

getopt-command_line :
    (nm_name nvme_pci : Text) (slba nblocks count usleep : ℕ) (build : Bool)
    → getopt option_string (command_line nm_name nvme_pci slba nblocks count usleep build)
      ≡ options nm_name nvme_pci slba nblocks count usleep build
unfolding getopt
getopt-command_line nm_name nvme_pci slba nblocks count usleep true = refl
getopt-command_line nm_name nvme_pci slba nblocks count usleep false = refl

set_nblocks-pos :
    (s : Settings) (n : ℕ) → set_nblocks s (pos n) ≡ some (record s { nblocks = pos n })
unfolding set_nblocks
set_nblocks-pos s n = ground arith

each-options :
    (nm_name nvme_pci : Text) (slba nblocks count usleep : ℕ) (build : Bool)
    → slba < 2 ^ 63
    → nblocks < 2 ^ 31
    → count < 2 ^ 31
    → usleep < 2 ^ 31
    → each set_option initial (options nm_name nvme_pci slba nblocks count usleep build)
      ≡ some (settings nm_name nvme_pci slba nblocks count usleep build)
unfolding set_option
each-options nm_name nvme_pci slba nblocks count usleep true hs hn hc hu =
    let word : to_u64 (pos slba) ≡ slba = omega arith in
    rw
      (
        each,
        strtol-decimal 0 slba (inl refl) hs,
        atoi-decimal nblocks hn,
        set_nblocks-pos,
        atoi-decimal count hc,
        atoi-decimal usleep hu,
        word,
      )
      refl
each-options nm_name nvme_pci slba nblocks count usleep false hs hn hc hu =
    let word : to_u64 (pos slba) ≡ slba = omega arith in
    rw
      (
        each,
        strtol-decimal 0 slba (inl refl) hs,
        atoi-decimal nblocks hn,
        set_nblocks-pos,
        atoi-decimal count hc,
        atoi-decimal usleep hu,
        word,
      )
      refl

-- The command line of load-and-xmit is read back as the settings that it was written from, for a first
-- block below 2^63 and numbers that an `int` holds.
pub parse_args-command_line :
    (nm_name nvme_pci : Text) (slba nblocks count usleep : ℕ) (build : Bool)
    → slba < 2 ^ 63
    → nblocks < 2 ^ 31
    → count < 2 ^ 31
    → usleep < 2 ^ 31
    → parse_args (command_line nm_name nvme_pci slba nblocks count usleep build)
      ≡ some (settings nm_name nvme_pci slba nblocks count usleep build)
unfolding parse_args
parse_args-command_line nm_name nvme_pci slba nblocks count usleep build hs hn hc hu =
    ap (each set_option initial)
      (getopt-command_line nm_name nvme_pci slba nblocks count usleep build)
    ∙ each-options nm_name nvme_pci slba nblocks count usleep build hs hn hc hu

-- `load-and-xmit -i … -p … -s slba -n nblocks -c count -u usleep [-b]`, for a first block below
-- 2^63 and numbers that an `int` holds, where the openings succeed, no read and no NIOCTXSYNC
-- fails, and the ring has room at first and after each NIOCTXSYNC: the blocks from `slba` on are
-- read in order, `count` times over, and the ring is synchronised once for each.
pub load_and_xmit_lem :
    (o : Outside) (good : Succeeds o) (roomy : LeavesRoom o) (opens : Opens o)
    (nm_name nvme_pci : Text) (slba nblocks count usleep : ℕ) (build : Bool) (st : State)
    → slba < 2 ^ 63
    → nblocks < 2 ^ 31
    → count < 2 ^ 31
    → usleep < 2 ^ 31
    → st.log ≡ []
    → o.netmap.nm_ring_empty st.ring ≡ false
    → let args = command_line nm_name nvme_pci slba nblocks count usleep build in
      let log = (load_and_xmit o args st).1.log in
      (lbas log ≡ repeated count (ascending slba 0 nblocks)) × (syncs log ≡ count * nblocks)
unfolding load_and_xmit run_settings
load_and_xmit_lem o good roomy opens nm_name nvme_pci slba nblocks count usleep build st hs hn hc hu
      fresh room =
    rw (parse_args-command_line nm_name nvme_pci slba nblocks count usleep build hs hn hc hu) (
      main_lem o (body_of (settings nm_name nvme_pci slba nblocks count usleep build)) good roomy
        opens st fresh room)
