-- ===== src/Load/Args/Batch.antt =====
-- userland-driver/tools/load-and-xmit.c: the option -B of the usage text.
use nvpkt.Base.{
  ◌≡◌, refl, Bool, true, ◌==◌, Option, none, some, List, ℤ, pos, subst, Bool-cases, inl, inr, ==→eq,
  arith,
}
use nvpkt.Args.{Text, Opt, flag, value, bad}
use nvpkt.Args.Each.{Holds}
use nvpkt.Args.Known.{IsKnown, known_lem}
use nvpkt.Args.Numbers.{atoi}
use nvpkt.Load.Args.{Settings, initial, option_string, set_nblocks, set_option, parse_args}

abbrev HasBatchOne : Settings → Type 0
HasBatchOne s = s.batch_size ≡ pos 1

set_nblocks-HasBatchOne :
    (s : Settings) (n : ℤ) → HasBatchOne s → Holds HasBatchOne (set_nblocks s n)
unfolding set_nblocks
set_nblocks-HasBatchOne s n h = ground arith

set_option-HasBatchOne :
    (s : Settings) (o : Opt)
    → IsKnown option_string o
    → HasBatchOne s
    → Holds HasBatchOne (set_option s o)
unfolding set_option
set_option-HasBatchOne s bad k h = tt
set_option-HasBatchOne s (flag c) k h = ground arith
set_option-HasBatchOne s (value c arg) k h = elim (Bool-cases (c == b'B')) [
  | inl is_B ↦
      let unknown : ◌≡◌ {A = Option Bool} none (some true) =
        subst (λ d. option_string d ≡ some true) (==→eq c b'B' is_B) k in
      cc
  | inr other ↦ rw other (ground (arith, set_nblocks-HasBatchOne s (atoi arg) h))
]

-- Whatever the arguments of load-and-xmit, `-B` among them: where they are accepted, the batch size is 1.
pub parse_args-HasBatchOne :
    (args : List Text) (s : Settings) → parse_args args ≡ some s → s.batch_size ≡ pos 1
unfolding parse_args
parse_args-HasBatchOne args s e =
    known_lem HasBatchOne option_string set_option set_option-HasBatchOne initial s args refl e
