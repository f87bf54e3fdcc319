-- ===== src/Bench/System/Ends.antt =====
-- userland-driver/tools/bench-nvme.c: every run of the program with its threads ends once the signal is
-- caught, whatever the order of the steps.
use nvpkt.Base.{
  ℕ, zero, suc, ◌+◌, ◌≡◌, refl, ap, ◌∙◌, subst, true, false, pos_part, inl, inr, ◌⊎◌, arith,
}
use nvpkt.Bench.Args.{Config}
use nvpkt.Bench.Main.{Machine}
use nvpkt.Bench.System.{
  Pc, exited, is_waiting, is_running, ReporterPc, gone, is_active, MainPc, creating, joining,
  sleeping, joining_reporter, closed, System, Step, creates, reports, wakes, joins, all_joined,
  closes, works, counts, Reach, Steps,
}
use nvpkt.Bench.System.Inv.{is_creating, is_unborn, InPlace, Inv, goods}
use nvpkt.Bench.System.Inv.Steps.{Reach-Inv}

module _ (m : Machine) (p : Config) where
  created-cases : (pc : Pc) → is_waiting pc ≡ false → (pc ≡ exited) ⊎ (is_running pc ≡ true)
  created-cases pc w = ground arith

  born-cases : (pc : ReporterPc) → is_unborn pc ≡ false → (pc ≡ gone) ⊎ (is_active pc ≡ true)
  born-cases pc w = ground arith

  -- what may come next
  abbrev pub Next : System → Type 0
  Next s = (t : System) × Step m p s t

  joining-Next : {s : System} (left n : ℕ) → Inv m p s → s.main ≡ joining (suc left) n → Next s
  joining-Next {s} left n v e =
      let place : n + suc left ≡ pos_part p.ncpus =
        subst (InPlace (pos_part p.ncpus)) e v.in_place in
      let there : is_waiting (s.workers n).pc ≡ false =
        (goods m p v e n).created ∙ ground (arith, place) in
      elim (created-cases (s.workers n).pc there) [
        | inl x ↦ (_, joins left n e x)
        | inr r ↦ (_, works n r)
      ]

  reporter-Next : {s : System} → Inv m p s → s.main ≡ joining_reporter → Next s
  reporter-Next {s} v e = elim (born-cases s.reporter.pc (v.born ∙ ap is_creating e)) [
    | inl g ↦ (_, closes e g)
    | inr a ↦ (_, counts a)
  ]

  Next-main : {s : System} → Inv m p s → (main : MainPc) → s.main ≡ main → (main ≡ closed) ⊎ Next s
  Next-main v (creating zero n) e = inr (_, reports n e)
  Next-main v (creating (suc left) n) e = inr (_, creates left n e)
  Next-main v sleeping e = inr (_, wakes e)
  Next-main v (joining zero n) e = inr (_, all_joined n e)
  Next-main v (joining (suc left) n) e = inr (joining-Next left n v e)
  Next-main v joining_reporter e = inr (reporter-Next v e)
  Next-main v closed e = inl refl

  -- As long as the device is not closed, some thread has a step: no run gets stuck.
  pub Reach-Next : {s : System} → Reach m p s → (s.main ≡ closed) ⊎ Next s
  Reach-Next {s} r = Next-main (Reach-Inv m p r) s.main refl
