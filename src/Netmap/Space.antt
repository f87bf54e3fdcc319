-- ===== src/Netmap/Space.antt =====
-- Rings as cycles: how far a slot is from the program's position, and what a step changes.
use native.Mathlib.Nat.{add-mod_left}
use nvpkt.Base.{
  sym, ◌∙◌, ℕ, ◌+◌, ◌-◌, ◌%◌, ◌<◌, ◌≡◌, ap, true, false, inl, inr, Bool-cases, ==→eq, suc, ltb,
  ◌==◌, if◌then◌else◌, arith,
}
use nvpkt.Netmap.{Ring}

-- the steps from the position `cur` to slot `i` of `n`
abbrev pub ahead : (n cur i : ℕ) → ℕ
ahead n cur i = if ltb i cur then i + n - cur else i - cur

-- the slots that the program owns
abbrev pub space : Ring → ℕ
space r = ahead r.num_slots r.cur r.tail

-- the slot behind `i`
abbrev pub following : (n i : ℕ) → ℕ
following n i = if i + 1 == n then 0 else i + 1

pub following_in : (n i : ℕ) → i < n → following n i < n
following_in n i h = ground arith

-- A step comes nearer to every slot but the one it leaves, which is now the farthest.
pub ahead-following :
    (n cur i : ℕ)
    → cur < n
    → i < n
    → ahead n (following n cur) i ≡ (if i == cur then n - 1 else ahead n cur i - 1)
ahead-following n cur i hc hi = ground arith

-- the slot at the position, and no other, is 0 steps ahead
pub ahead-0 :
    (n cur i : ℕ) → cur < n → i < n → (ltb 0 (ahead n cur i)) ≡ (if i == cur then false else true)
ahead-0 n cur i hc hi = ground arith

pub ahead-bound : (n cur i : ℕ) → cur < n → i < n → ahead n cur i < n
ahead-bound n cur i hc hi = ground arith

pub following-mod : (n cur left : ℕ) → cur < n → (following n cur + left) % n ≡ (cur + suc left) % n
following-mod n cur left h = elim (Bool-cases (cur + 1 == n)) [
  | inl last ↦
      let e : cur + suc left ≡ n + left = omega (arith, ==→eq (cur + 1) n last) in
      rw (last, e) (ap (λ m. m % n) (omega arith) ∙ sym (add-mod_left n left))
  | inr more ↦ rw more (ap (λ m. m % n) (omega arith))
]
