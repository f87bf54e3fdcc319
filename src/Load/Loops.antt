-- ===== src/Load/Loops.antt =====
-- userland-driver/tools/load-and-xmit.c, `main`: invariants of its two loops.
use nvpkt.Base.{ℕ, zero, suc, ◌+◌, ℤ, pos_part}
use nvpkt.Load.{Outside, Body, State, Next, stop, on, one_block, and_then, blocks, rounds}

-- `P` where the loops go on, `Q` where they are left by `goto`, of `ret` and the state
abbrev pub Ends : (P Q : ℤ → State → Type 0) → Next → Type 0
Ends P Q (stop ret st) = Q ret st
Ends P Q (on ret st) = P ret st

module _ (o : Outside) (body : Body) (P Q : ℤ → State → Type 0) where
  and_then-Ends :
      (next : Next) (rest : ℤ → State → Next)
      → Ends P Q next
      → ((ret : ℤ) (st : State) → P ret st → Ends P Q (rest ret st))
      → Ends P Q (and_then o body next rest)
  and_then-Ends (stop ret st) rest h k = h
  and_then-Ends (on ret st) rest h k = k ret st h

  module _
      (round : (n : ℕ) (ret : ℤ) (st : State) → P ret st → Ends P Q (one_block o body n st)) where
    blocks-Ends :
        (left n : ℕ) (ret : ℤ) (st : State) → P ret st → Ends P Q (blocks o body left n ret st)
    unfolding blocks
    blocks-Ends zero n ret st h = h
    blocks-Ends (suc left) n ret st h =
        and_then-Ends (one_block o body n st) (blocks o body left (n + 1)) (round n ret st h)
          (blocks-Ends left (n + 1))

    pub rounds-Ends :
        (left : ℕ) (ret : ℤ) (st : State) → P ret st → Ends P Q (rounds o body left ret st)
    unfolding rounds
    rounds-Ends zero ret st h = h
    rounds-Ends (suc left) ret st h =
        and_then-Ends (blocks o body (pos_part body.nblocks) 0 ret st) (rounds o body left)
          (blocks-Ends (pos_part body.nblocks) 0 ret st h) (rounds-Ends left)
