-- ===== src/Driver/Exec.antt =====
-- Running driver code: the log of kernel calls is passed along, and code that goes through a NULL
-- pointer stops there.
use nvpkt.Base.{◌≡◌, refl, ℤ, negsuc, ◌∷◌}
use nvpkt.Driver.Kernel.{Event, Log}

pub data Outcome (A : Type 0) : Type 0 where
  done : A → Outcome A
  oops : Outcome A

-- What a C function passes back: its result, or its negative status.
pub data Status (A : Type 0) : Type 0 where
  ok : A → Status A
  err : ℤ → Status A

abbrev pub M : Type 0 → Type 0
M A = Log → Outcome A × Log

abbrev pub pure : {A : Type 0} → A → M A
pure a l = (done a, l)

-- a NULL pointer is followed
abbrev pub crash : {A : Type 0} → M A
crash l = (oops, l)

infixl 5 ◌>>=◌ ◌>>◌
abbrev pub after : {A B : Type 0} → (A → M B) → Outcome A × Log → Outcome B × Log
after f (done a, l) = f a l
after f (oops, l) = (oops, l)

abbrev pub ◌>>=◌ : {A B : Type 0} → M A → (A → M B) → M B
◌>>=◌ m f l = after f (m l)

abbrev pub ◌>>◌ : {A B : Type 0} → M A → M B → M B
m >> n = m >>= λ _. n

-- A call to the kernel: its answer may depend on the log, and the log grows by the event.
abbrev pub call : {A : Type 0} → (Log → A) → (A → Event) → M A
call answer event l = (done (answer l), event (answer l) ∷ l)

abbrev pub note : Event → M (Unit {0})
note e l = (done tt, e ∷ l)

-- A run that ends with a result, of which `P` holds.
abbrev pub Returns : {A : Type 0} → (A → Log → Type 0) → Outcome A × Log → Type 0
Returns P (done a, l) = P a l
Returns P (oops, l) = ⊥

pub Returns-mono :
    {A : Type 0} {P : A → Log → Type 0} (Q : A → Log → Type 0)
    → ((a : A) (l : Log) → P a l → Q a l)
    → (run : Outcome A × Log) → Returns P run
    → Returns Q run
Returns-mono Q f (done a, l) p = f a l p
Returns-mono Q f (oops, l) p = absurd p

-- Sequencing: what the first part returns is all that the second part may rely on.
pub Returns-after :
    {A B : Type 0} {P : A → Log → Type 0} (Q : B → Log → Type 0) (f : A → M B)
    → ((a : A) (l : Log) → P a l → Returns Q (f a l))
    → (run : Outcome A × Log) → Returns P run
    → Returns Q (after f run)
Returns-after Q f rule (done a, l) p = rule a l p
Returns-after Q f rule (oops, l) p = absurd p

-- Code that agrees after every result agrees after a run.
pub after-congr :
    {A B : Type 0} (f g : A → M B)
    → ((a : A) (l : Log) → f a l ≡ g a l)
    → (run : Outcome A × Log) → after f run ≡ after g run
after-congr f g e (done a, l) = e a l
after-congr f g e (oops, l) = refl

-- The error numbers of <linux/errno.h>, negated.
abbrev pub enomem : ℤ
enomem = negsuc 11

abbrev pub einval : ℤ
einval = negsuc 21

abbrev pub eintr : ℤ
eintr = negsuc 3

abbrev pub ebusy : ℤ
ebusy = negsuc 15

abbrev pub enodev : ℤ
enodev = negsuc 18
