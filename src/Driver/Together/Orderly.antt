-- ===== src/Driver/Together/Orderly.antt =====
-- native-driver/nvpkt.c: processes that use the module at the same time leave each other's objects alone.
use nvpkt.Base.{
  ℕ, ◌<◌, ◌≡◌, refl, ap, sym, ◌∙◌, none, some, List, [], ◌∷◌, ◌++◌, length, ◌==◌, Bool-cases,
  Option-cases, inl, inr, ℤ, arith,
}
use nvpkt.Driver.Kernel.{Event, Log, Kernel, Namespace}
use nvpkt.Driver.Exec.{Outcome, done, oops, Returns}
use nvpkt.Driver.Docs.{IsDocumented}
use nvpkt.Driver.Books.{Books, audit, fresh_books}
use nvpkt.Driver.Xmit.{buffer_size}
use nvpkt.Driver.Files.{Operation, session}
use nvpkt.Driver.Files.Session.{RunsOrderly, session-Orderly}
use nvpkt.Driver.Together.{History, calls_of, before_call, seen_through, seen_by, IsRun}

-- What is documented of every answer holds of those that a process sees.
seen_through-IsDocumented :
    (world : Log → Log) (k : Kernel) → IsDocumented k → IsDocumented (seen_through world k)
seen_through-IsDocumented world k d = record {
  sgl_total = λ l. d.sgl_total (world l);
  append_sets = λ l. d.append_sets (world l);
  map_sets = λ l. d.map_sets (world l);
  build_len = λ l. d.build_len (world l);
  put_len = d.put_len;
  fill_len = d.fill_len;
  mac_len = d.mac_len;
  info_small = d.info_small;
}

-- Whatever calls came later, those before them were in order.
audit-earlier :
    (e : Event) (l : Log) {b : Books} → audit (e ∷ l) ≡ some b → (c : Books) × (audit l ≡ some c)
audit-earlier e l {b} a = elim (Option-cases (audit l)) [
  | inl n ↦ absurd (let f : audit (e ∷ l) ≡ none = rw n refl in ground (arith, f, a))
  | inr (c, f) ↦ (c, f)
]

audit-before :
    (i : ℕ) (later earlier : History) {b : Books}
    → audit (calls_of i (later ++ earlier)) ≡ some b
    → (c : Books) × (audit (calls_of i earlier) ≡ some c)
audit-before i [] earlier {b} a = (b, a)
audit-before i ((j, e) ∷ later) earlier {b} a = elim (Bool-cases (j == i)) [
  | inl same ↦
      let (c, g) = audit-earlier e (calls_of i (later ++ earlier)) (rw same at a) in
      audit-before i later earlier g
  | inr other ↦ audit-before i later earlier (rw other at a)
]

Returns-done :
    {A : Type 0} (P : A → Log → Type 0) (run : Outcome A × Log)
    → Returns P run
    → (a : A) × (run.0 ≡ done a) × P a run.1
Returns-done P (done a, l) p = (a, refl, p)
Returns-done P (oops, l) p = absurd p

-- in order, with nothing held
pub record Idle (l : Log) : Type 0 where
  pub books : Books
  pub audited : audit l ≡ some books
  pub requests : books.requests ≡ 0
  pub user_maps : books.user_maps ≡ 0

module _ (kernel_of : ℕ → Kernel) (ns : Namespace) (netdev : ℕ)
    (docs : (i : ℕ) → IsDocumented (kernel_of i))
    (room : (i : ℕ) (l : Log) (arg : ℕ)
      → 0 < buffer_size (kernel_of i) ((kernel_of i).copy_xmit l arg).1) where
  seen-room :
      (i : ℕ) (h : History) (l : Log) (arg : ℕ)
      → 0
        < buffer_size
            (seen_by kernel_of ns netdev i h)
            ((seen_by kernel_of ns netdev i h).copy_xmit l arg).1
  seen-room i h l arg = room i (before_call i (length l) h) arg

  -- Several processes use the loaded module at the same time, their calls of the kernel in any
  -- order, each answered from all calls before it, within the documentation of the kernel; no
  -- packet length wraps the size of its buffer to 0: each process gets an answer to each of its
  -- operations, no NULL pointer is followed, at any moment its calls so far are in order, and at
  -- the end it holds no request and no user page.
  pub together-Idle :
      (count : ℕ) (ops : ℕ → List Operation) (later earlier : History)
      → IsRun kernel_of ns netdev count ops (later ++ earlier)
      → (i : ℕ) → i < count
      → ((rs : List ℤ) × ((session
              (seen_by kernel_of ns netdev i (later ++ earlier))
              ns
              netdev
              (ops i)
              []).0
            ≡ done rs)
          × (length rs ≡ length (ops i)))
        × Idle (calls_of i (later ++ earlier))
        × ((b : Books) × (audit (calls_of i earlier) ≡ some b))
  together-Idle count ops later earlier run i below =
      let k = seen_by kernel_of ns netdev i (later ++ earlier) in
      let d =
        seen_through-IsDocumented (λ l. before_call i (length l) (later ++ earlier)) (kernel_of i)
          (docs i) in
      let orderly =
        session-Orderly k ns netdev d (seen-room i (later ++ earlier)) (ops i) [] fresh_books
          refl in
      let (rs, answered, (len, (n, t))) =
        Returns-done
          (RunsOrderly k ns netdev d (seen-room i (later ++ earlier)) fresh_books (length (ops i)))
          (session k ns netdev (ops i) []) orderly in
      let idle : Idle (calls_of i (later ++ earlier)) = record {
        books = t.settled.books;
        audited = sym (ap audit (run i below)) ∙ t.settled.audited;
        requests = t.settled.requests;
        user_maps = t.settled.user_maps;
      } in
      ((rs, answered, len), idle, audit-before i later earlier idle.audited)
