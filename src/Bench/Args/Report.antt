-- ===== src/Bench/Args/Report.antt =====
-- userland-driver/tools/bench-nvme.c, `print_p`: what is printed of a configuration, and how it is read
-- back.
use nvpkt.Base.{
  ℕ, zero, suc, ◌+◌, ◌/◌, ◌%◌, ◌<◌, ◌≤◌, ◌^◌, ◌≡◌, refl, ap, ◌∙◌, Bool, true, false, ◌&&◌, ◌==◌,
  not, Option, none, some, List, [], ◌∷◌, ◌++◌, drop, ltb, if◌then◌else◌, ℤ, pos, negsuc,
  Bool-cases, inl, inr, arith,
}
use nvpkt.Args.{Text, codes, lines}
use nvpkt.Args.Print.{decimal, digits_from}
use nvpkt.Args.Line.{dash}
use nvpkt.Bench.Walk.{Walk, random, seq, same}
use nvpkt.Bench.Args.{Config, parse_args}
use nvpkt.Bench.Args.Print.{mode_text, walk_text, command_line, parse_args-command_line}

-- `%d`, and `%s` of a pointer that may be NULL
abbrev pub signed : ℤ → Text
signed (pos n) = decimal n
signed (negsuc n) = b'-' ∷ decimal (suc n)

abbrev pub string_of : Option Text → Text
string_of none = codes "(null)"
string_of (some s) = s

abbrev report_lines : Config → List Text
report_lines p =
    codes "==== Benchmark Configuration ===="
    ∷ (codes "mode:       " ++ mode_text p.write)
    ∷ (codes "walk:       " ++ walk_text p.walk)
    ∷ (codes "size:       " ++ signed p.size)
    ∷ (codes "batch:      " ++ signed p.batch)
    ∷ (codes "device:     " ++ string_of p.pci)
    ∷ (codes "ncpus:      " ++ signed p.ncpus)
    ∷ (codes "time:       " ++ signed p.time)
    ∷ codes "================================="
    ∷ []

unfoldable pub print_p : Config → Text
print_p p = lines (report_lines p)

-- the lines of a text
abbrev pub in_front : ℕ → List Text → List Text
in_front c [] = (c ∷ []) ∷ []
in_front c (s ∷ ss) = (c ∷ s) ∷ ss

pub rows : Text → List Text
rows [] = []
rows (c ∷ cs) = let rest = rows cs in if c == 10 then [] ∷ rest else in_front c rest

-- The command line that asks for what a report says: each value stands behind a name of 12 bytes.
pub command_of : List Text → List Text
command_of (title ∷ m ∷ w ∷ s ∷ b ∷ d ∷ n ∷ t ∷ rest) =
    dash b'm'
    ∷ drop 12 m
    ∷ dash b'w'
    ∷ drop 12 w
    ∷ dash b's'
    ∷ drop 12 s
    ∷ dash b'b'
    ∷ drop 12 b
    ∷ dash b'n'
    ∷ drop 12 n
    ∷ dash b't'
    ∷ drop 12 t
    ∷ dash b'p'
    ∷ drop 12 d
    ∷ []
command_of _ = []

-- no line feed in a text
abbrev pub is_line : Text → Bool
is_line [] = true
is_line (c ∷ cs) = not (c == 10) && is_line cs

rows-line : (s rest : Text) → is_line s ≡ true → rows (s ++ (10 ∷ rest)) ≡ s ∷ rows rest
unfolding rows
rows-line [] rest h = refl
rows-line (c ∷ cs) rest h = elim (Bool-cases (c == 10)) [
  | inl feed ↦ absurd (ground (arith, feed, h))
  | inr other ↦ let h' : is_line cs ≡ true = rw other at h in rw (other, rows-line cs rest h') refl
]

abbrev AreLines : List Text → Type 0
AreLines [] = Unit
AreLines (s ∷ ss) = (is_line s ≡ true) × AreLines ss

rows-lines : (ss : List Text) → AreLines ss → rows (lines ss) ≡ ss
unfolding rows
rows-lines [] h = refl
rows-lines (s ∷ ss) (h, hs) = rows-line s (lines ss) h ∙ ap (λ rest. s ∷ rest) (rows-lines ss hs)

is_line-digits_from :
    (fuel n : ℕ) (cs : Text) → is_line cs ≡ true → is_line (digits_from fuel n cs) ≡ true
is_line-digits_from zero n cs h = ground (arith, h)
is_line-digits_from (suc fuel) n cs h = elim (Bool-cases (ltb n 10)) [
  | inl small ↦ rw small (ground (arith, h))
  | inr more ↦
      rw more (is_line-digits_from fuel (n / 10) ((b'0' + n % 10) ∷ cs) (ground (arith, h)))
]

is_line-decimal : (n : ℕ) → is_line (decimal n) ≡ true
unfolding decimal
is_line-decimal n = is_line-digits_from n n [] refl

is_line-mode_text : (write : Bool) → is_line (mode_text write) ≡ true
is_line-mode_text true = refl
is_line-mode_text false = refl

is_line-walk_text : (walk : Walk) → is_line (walk_text walk) ≡ true
is_line-walk_text random = refl
is_line-walk_text seq = refl
is_line-walk_text same = refl

abbrev configured : (write : Bool) (walk : Walk) (size batch ncpus time : ℕ) (pci : Text) → Config
configured write walk size batch ncpus time pci = record {
  write = write;
  walk = walk;
  size = pos size;
  batch = pos batch;
  ncpus = pos ncpus;
  time = pos time;
  pci = some pci;
  verbose_level = 0;
}

command_of-print_p :
    (write : Bool) (walk : Walk) (size batch ncpus time : ℕ) (pci : Text)
    → is_line pci ≡ true
    → command_of (rows (print_p (configured write walk size batch ncpus time pci)))
      ≡ command_line write walk size batch ncpus time pci
unfolding print_p command_of
command_of-print_p write walk size batch ncpus time pci h = ap command_of (
    rows-lines (report_lines (configured write walk size batch ncpus time pci)) (
      refl,
      (
        is_line-mode_text write,
        (
          is_line-walk_text walk,
          (
            is_line-decimal size,
            (
              is_line-decimal batch,
              (h, (is_line-decimal ncpus, (is_line-decimal time, (refl, tt)))),
            ),
          ),
        ),
      ),
    ))

-- What bench-nvme prints of a configuration says it all: for every configuration within its bounds,
-- with numbers that an `int` holds and no line feed in the name of the device, the command line
-- made of the values in the lines of print_p is read back as this configuration.
pub parse_args-print_p :
    (online : ℕ) (write : Bool) (walk : Walk) (size batch ncpus time : ℕ) (pci : Text)
    → is_line pci ≡ true
    → size < 2 ^ 31
    → batch ≤ 258
    → 1 ≤ ncpus
    → ncpus ≤ online
    → ncpus < 2 ^ 31
    → time < 2 ^ 31
    → let p = configured write walk size batch ncpus time pci in
      parse_args (pos online) (command_of (rows (print_p p))) ≡ some p
parse_args-print_p online write walk size batch ncpus time pci h hs hb h1 hn h31 ht =
    ap (parse_args (pos online)) (command_of-print_p write walk size batch ncpus time pci h)
    ∙ parse_args-command_line online write walk size batch ncpus time pci hs hb h1 hn h31 ht
