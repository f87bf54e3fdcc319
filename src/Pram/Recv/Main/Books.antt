-- ===== src/Pram/Recv/Main/Books.antt =====
-- userland-driver/tools/recv-to-pram.c, `main`: the port is closed.
use nvpkt.Base.{
  ℕ, zero, suc, ◌+◌, ◌≡◌, refl, Option, none, some, Bool, true, false, List, ◌∷◌, ◌++◌, ℤ,
}
use nvpkt.Args.{Text}
use nvpkt.Pram.Calls.{nm_closed, Log, held}
use nvpkt.Pram.Recv.{Rings, Shown}
use nvpkt.Pram.Recv.Main.{
  Settings, Outside, Pass, starved, exits, stops, passes, End, out_of_fuel, invalid, failed, gone,
  stopped, running, openings, pass, serve, flushed, addressed, open_all, run, main, parse_args,
}

-- No call is out of place; the port is held neither before it was opened nor behind a return, and
-- still held only where the program has left by `exit`.
pub data IsReleased : End → Type 0 where
  out_of_fuel_released : IsReleased out_of_fuel
  invalid_released : IsReleased invalid
  failed_released : (ret : ℤ) (log : Log) → held log ≡ some false → IsReleased (failed ret log)
  gone_released :
      (shown : List Shown) (log : Log) → held log ≡ some true → IsReleased (gone shown log)
  stopped_released :
      (ret : ℤ) (shown : List Shown) (log : Log)
      → held log ≡ some false
      → IsReleased (stopped ret shown log)
  running_released : (shown : List Shown) (rings : Rings) → IsReleased (running shown rings)

module _ (o : Outside) where
  serve-IsReleased :
      (no_p2pmem : Bool) (fuel left t : ℕ) (shown : List Shown) (rings : Rings)
      → IsReleased (serve o no_p2pmem fuel left t shown rings)
  unfolding serve held
  serve-IsReleased no_p2pmem fuel zero t shown rings = running_released shown rings
  serve-IsReleased no_p2pmem fuel (suc left) t shown rings =
      go no_p2pmem (pass o no_p2pmem fuel t rings)
        (λ more rings'. serve-IsReleased no_p2pmem fuel left (t + 1) (shown ++ more) rings')
    where
      go :
          (no_p2pmem : Bool) (p : Pass)
          → ((more : List Shown) (rings' : Rings)
              → IsReleased (serve o no_p2pmem fuel left (t + 1) (shown ++ more) rings'))
          → IsReleased (elim p [
            | starved ↦ out_of_fuel
            | exits ↦ gone shown (openings no_p2pmem)
            | stops ret rings' ↦ stopped ret shown (nm_closed ∷ openings no_p2pmem)
            | passes more rings' ↦ serve o no_p2pmem fuel left (t + 1) (shown ++ more) rings'
          ])
      go b starved rest = out_of_fuel_released
      go true exits rest = gone_released shown _ refl
      go false exits rest = gone_released shown _ refl
      go true (stops ret rings') rest = stopped_released ret shown _ refl
      go false (stops ret rings') rest = stopped_released ret shown _ refl
      go b (passes more rings') rest = rest more rings'

  flushed-IsReleased :
      (fuel left : ℕ) (rings : Option Rings) → IsReleased (flushed o fuel left rings)
  unfolding held
  flushed-IsReleased fuel left none = gone_released _ _ refl
  flushed-IsReleased fuel left (some rings) = serve-IsReleased false fuel left 0 _ _

  addressed-IsReleased :
      (fuel left : ℕ) (paddr : Option ℕ) → IsReleased (addressed o fuel left paddr)
  unfolding held
  addressed-IsReleased fuel left none = gone_released _ _ refl
  addressed-IsReleased fuel left (some paddr) = flushed-IsReleased fuel left _

  open_all-IsReleased :
      (fuel left : ℕ) (no_p2pmem nm_open no_fd mmap : Bool)
      → IsReleased (open_all o fuel left no_p2pmem nm_open no_fd mmap)
  unfolding open_all held
  open_all-IsReleased fuel left _ false _ _ = failed_released _ _ refl
  open_all-IsReleased fuel left _ true true _ = failed_released _ _ refl
  open_all-IsReleased fuel left true true false _ = serve-IsReleased true fuel left 0 _ _
  open_all-IsReleased fuel left false true false false = failed_released _ _ refl
  open_all-IsReleased fuel left false true false true = addressed-IsReleased fuel left _

  run-IsReleased : (fuel left : ℕ) (s : Option Settings) → IsReleased (run o fuel left s)
  unfolding run
  run-IsReleased fuel left none = invalid_released
  run-IsReleased fuel left (some s) = open_all-IsReleased fuel left _ _ _ _

-- Whatever the arguments are and however the calls of `main` of recv-to-pram turn out, no call is out
-- of place, the port is closed on every return, and it is still held only where the program has left
-- by the `exit` of `phy_addr`.
pub main-IsReleased :
    (o : Outside) (fuel left : ℕ) (args : List Text) → IsReleased (main o fuel left args)
unfolding main
main-IsReleased o fuel left args = run-IsReleased o fuel left (parse_args args)
