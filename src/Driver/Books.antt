-- ===== src/Driver/Books.antt =====
-- What the log says of the objects that the driver holds. An event that the kernel's rules forbid
-- at that point spoils the books: a request used or freed that is not there, a packet sent that was
-- not built or before its read was executed, a user page unmapped that was not mapped.
use native.Mathlib.Nat.{le_refl, le_trans}
use nvpkt.Base.{
  arith, refl, ◌∙◌, ◌<◌, ℕ, ◌+◌, ◌-◌, ◌≤◌, ◌≡◌, Bool, true, false, ◌&&◌, Option, none, some, [],
  ◌∷◌, ltb, if◌then◌else◌, is_zero_ℤ,
}
use nvpkt.Driver.Kernel.{
  Event, Log, allocated_sgl, built_skb, allocated_request, mapped_user, executed, unmapped_user,
  transmitted, freed_request,
}
use nvpkt.Driver.Exec.{Outcome, Returns, Returns-mono}

pub record Books : Type 0 where
  -- requests allocated and not freed, user pages mapped into one of them
  pub requests : ℕ
  pub user_maps : ℕ
  -- scatterlists allocated, which nothing frees, and sk_buffs not handed to the network
  pub sgls : ℕ
  pub skbs : ℕ
  -- scatterlists asked for: packets tried
  pub asked : ℕ
  -- the request at hand was executed
  pub read : Bool

abbrev pub enter : Event → Books → Option Books
enter (allocated_sgl _ true) b = some (record b { sgls = b.sgls + 1; asked = b.asked + 1 })
enter (allocated_sgl _ false) b = some (record b { asked = b.asked + 1 })
enter (built_skb _ _ true) b = some (record b { skbs = b.skbs + 1 })
enter (allocated_request _ true) b = some (record b { requests = b.requests + 1; read = false })
enter (executed _) b = if ltb 0 b.requests then some (record b { read = true }) else none
enter (mapped_user _ _ ret) b =
    if ltb 0 b.requests
    then (if is_zero_ℤ ret then some (record b { user_maps = b.user_maps + 1 }) else some b)
    else none
enter (unmapped_user _) b =
    if ltb 0 b.user_maps then some (record b { user_maps = b.user_maps - 1 }) else none
enter (transmitted _) b =
    if ltb 0 b.skbs && b.read then some (record b { skbs = b.skbs - 1 }) else none
enter (freed_request _) b =
    if ltb 0 b.requests then some (record b { requests = b.requests - 1; read = false }) else none
enter _ b = some b

abbrev pub fresh_books : Books
fresh_books = record { requests = 0; user_maps = 0; sgls = 0; skbs = 0; asked = 0; read = false }

-- the books of a whole log, or none if an event of it spoiled them
abbrev pub audit : Log → Option Books
audit [] = some fresh_books
audit (e ∷ l) = elim (audit l) [ none ↦ none | some b ↦ enter e b ]

-- The log is in order, and what it leaves is what `b` says, but for sk_buffs left behind.
pub record Settled (b : Books) (l : Log) : Type 0 where
  pub books : Books
  pub audited : audit l ≡ some books
  pub requests : books.requests ≡ b.requests
  pub user_maps : books.user_maps ≡ b.user_maps
  pub sgls : books.sgls ≡ b.sgls
  pub asked : books.asked ≡ b.asked
  pub skbs : b.skbs ≤ books.skbs

pub Settled-of :
    {b c : Books} {l : Log}
    → Settled c l
    → c.requests ≡ b.requests
    → c.user_maps ≡ b.user_maps
    → c.sgls ≡ b.sgls
    → c.asked ≡ b.asked
    → b.skbs ≤ c.skbs
    → Settled b l
Settled-of s r u g t k = record {
  books = s.books;
  audited = s.audited;
  requests = s.requests ∙ r;
  user_maps = s.user_maps ∙ u;
  sgls = s.sgls ∙ g;
  asked = s.asked ∙ t;
  skbs = le_trans k s.skbs;
}

-- books as they stand
pub Settled-self : {b : Books} {l : Log} → audit l ≡ some b → Settled b l
Settled-self {b} a = record {
  books = b;
  audited = a;
  requests = refl;
  user_maps = refl;
  sgls = refl;
  asked = refl;
  skbs = le_refl b.skbs;
}

-- A request at hand is freed.
pub Settled-freed :
    {b : Books} (tag : ℕ) {l : Log}
    → audit l ≡ some b
    → 0 < b.requests
    → Settled (record b { requests = b.requests - 1 }) (freed_request tag ∷ l)
Settled-freed {b} tag a one = record {
  books = record b { requests = b.requests - 1; read = false };
  audited = ground arith;
  requests = refl;
  user_maps = refl;
  sgls = refl;
  asked = refl;
  skbs = omega arith;
}

pub Returns-Settled :
    {A : Type 0} (b c : Books)
    → c.requests ≡ b.requests
    → c.user_maps ≡ b.user_maps
    → c.sgls ≡ b.sgls
    → c.asked ≡ b.asked
    → b.skbs ≤ c.skbs
    → (run : Outcome A × Log) → Returns (λ _ l. Settled c l) run
    → Returns (λ _ l. Settled b l) run
Returns-Settled b c r u g t k = Returns-mono (λ _ l. Settled b l) (λ _ l s. Settled-of s r u g t k)
