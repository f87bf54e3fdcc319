-- ===== src/Driver/Life/Inv.antt =====
-- native-driver/nvpkt.c from insmod to rmmod: what holds whenever no operation is under way.
use nvpkt.Base.{
  ℕ, ◌+◌, ◌-◌, ◌<◌, ◌≤◌, ◌≡◌, refl, ◌∙◌, true, false, some, ℤ, if◌then◌else◌, ◌||◌, Bool-cases,
  Option-cases, inl, inr, arith,
}
use nvpkt.Driver.Kernel.{Namespace, Kernel, Log}
use nvpkt.Driver.Exec.{Outcome, done, oops, Returns}
use nvpkt.Driver.Xmit.Count.{Tried}
use nvpkt.Driver.Docs.{IsDocumented}
use nvpkt.Driver.Books.{Books, audit, fresh_books}
use nvpkt.Driver.Xmit.{buffer_size}
use nvpkt.Driver.Module.{Nvpkt, Platform, init_module, exit_module}
use nvpkt.Driver.Module.Refs.{
  disk_taken-loaded, Refs, tally, disk_taken, loaded, is_complete, init_module_lem,
}
use nvpkt.Driver.Files.{Operation, open_file, release_file, read_file, write_file, unlocked_ioctl}
use nvpkt.Driver.Files.Session.{nvpkt_fops-Orderly}
use nvpkt.Driver.Life.{
  Life, is_oops, operate, operated, load, unload, Step, insmod, rmmod, opens, releases, reads,
  writes, requests, booted, Reach, boot, next,
}

-- 1 while the module is loaded
abbrev pub held : Life → ℕ
held s = if s.loaded then 1 else 0

-- The books of the references and those of the operations: exactly one partition, network device
-- and misc device is held while the module is loaded, and none while it is not, then with no file open;
-- a disk reference for each loading; every field of struct nvpkt set while it is loaded; no request and
-- no user page; at most one scatterlist for each packet tried; no NULL pointer followed.
pub record Inv (s : Life) : Type 0 where
  pub refs : Refs
  pub tallied : tally s.refs ≡ some refs
  pub parts : refs.parts ≡ held s
  pub devs : refs.devs ≡ held s
  pub mdevs : refs.mdevs ≡ held s
  pub disks : s.loads ≤ refs.disks
  pub complete : s.loaded ≡ true → is_complete s.nvpkt ≡ true
  pub unused : s.loaded ≡ false → s.files ≡ 0
  pub books : Books
  pub audited : audit s.log ≡ some books
  pub requests : books.requests ≡ 0
  pub user_maps : books.user_maps ≡ 0
  pub sgls : books.sgls ≤ books.asked
  pub sound : s.crashed ≡ false

booted-Inv : Inv booted
booted-Inv = record {
  refs = record { disks = 0; parts = 0; devs = 0; mdevs = 0 };
  tallied = refl;
  parts = refl;
  devs = refl;
  mdevs = refl;
  disks = omega arith;
  complete = λ e. cc;
  unused = λ e. refl;
  books = fresh_books;
  audited = refl;
  requests = refl;
  user_maps = refl;
  sgls = omega arith;
  sound = refl;
}

-- An operation that returned with its own objects given back.
run-Inv :
    {s : Life} (v : Inv s) (files : ℕ)
    → (s.loaded ≡ false → files ≡ 0)
    → (run : Outcome ℤ × Log) → Returns (λ _ l. (n : ℕ) × Tried v.books n l) run
    → Inv (record s { files = files; crashed = s.crashed || is_oops run.0; log = run.1 })
run-Inv v files none_open (done r, l) (n, t) = record {
  refs = v.refs;
  tallied = v.tallied;
  parts = v.parts;
  devs = v.devs;
  mdevs = v.mdevs;
  disks = v.disks;
  complete = v.complete;
  unused = none_open;
  books = t.settled.books;
  audited = t.settled.audited;
  requests = t.settled.requests ∙ v.requests;
  user_maps = t.settled.user_maps ∙ v.user_maps;
  sgls = omega (arith, t.settled.sgls, t.settled.asked, t.few, v.sgls);
  sound = rw v.sound;
}
run-Inv v files none_open (oops, l) t = absurd t

load-Inv : (p : Platform) {s : Life} → Inv s → s.loaded ≡ false → Inv (load p s)
unfolding load
load-Inv p {s} v e =
    let few = disk_taken-loaded p s.refs in
    let (t, c) = init_module_lem p s.refs v.tallied in
    record {
      refs = record {
        disks = v.refs.disks + disk_taken p s.refs;
        parts = v.refs.parts + loaded (init_module p s.refs).0;
        devs = v.refs.devs + loaded (init_module p s.refs).0;
        mdevs = v.refs.mdevs + loaded (init_module p s.refs).0;
      };
      tallied = t;
      parts = ground (arith, v.parts, e);
      devs = ground (arith, v.devs, e);
      mdevs = ground (arith, v.mdevs, e);
      disks = ground (arith, v.disks);
      complete = λ f. ground arith;
      unused = λ f. v.unused e;
      books = v.books;
      audited = v.audited;
      requests = v.requests;
      user_maps = v.user_maps;
      sgls = v.sgls;
      sound = v.sound;
    }

unload-Inv : {s : Life} → Inv s → s.loaded ≡ true → s.files ≡ 0 → Inv (unload s)
unfolding unload exit_module
unload-Inv {s} v e f = record {
  refs = record v.refs { parts = 0; devs = 0; mdevs = 0 };
  tallied = ground (arith, v.tallied, v.parts, v.devs, v.mdevs, e);
  parts = refl;
  devs = refl;
  mdevs = refl;
  disks = v.disks;
  complete = λ c. cc;
  unused = λ _. f;
  books = v.books;
  audited = v.audited;
  requests = v.requests;
  user_maps = v.user_maps;
  sgls = v.sgls;
  sound = v.sound;
}

-- A module with an open file is loaded.
opened-loaded : {s : Life} → Inv s → 0 < s.files → s.loaded ≡ true
opened-loaded {s} v h = elim (Bool-cases s.loaded) [
  | inl e ↦ e
  | inr e ↦ absurd (let f = v.unused e in omega (arith, f, h))
]

module _ (k : Kernel) (namespace_of : ℕ → Namespace) (docs : IsDocumented k)
    (room : (l : Log) (arg : ℕ) → 0 < buffer_size k (k.copy_xmit l arg).1) where
  -- Any operation, with the fields that a request goes through.
  operate-Orderly :
      (n : Nvpkt) (op : Operation) (l : Log) (b : Books)
      → is_complete n ≡ true
      → audit l ≡ some b
      → Returns (λ _ l'. (m : ℕ) × Tried b m l') (operate k namespace_of n op l)
  unfolding operate
  operate-Orderly n (unlocked_ioctl cmd arg) l b c a = elim (Option-cases n.disk) [
    | inl e ↦ absurd (ground (arith, e, c))
    | inr (disk, e) ↦ elim (Option-cases n.netdev) [
      | inl f ↦ absurd (ground (arith, e, f, c))
      | inr (netdev, f) ↦
          rw (e, f)
            (nvpkt_fops-Orderly k (namespace_of disk) netdev docs room (unlocked_ioctl cmd arg) l b
              a)
    ]
  ]
  operate-Orderly n open_file l b c a =
      nvpkt_fops-Orderly k (namespace_of 0) 0 docs room open_file l b a
  operate-Orderly n release_file l b c a =
      nvpkt_fops-Orderly k (namespace_of 0) 0 docs room release_file l b a
  operate-Orderly n (read_file buf count) l b c a =
      nvpkt_fops-Orderly k (namespace_of 0) 0 docs room (read_file buf count) l b a
  operate-Orderly n (write_file buf count) l b c a =
      nvpkt_fops-Orderly k (namespace_of 0) 0 docs room (write_file buf count) l b a

  -- An operation while the module is loaded.
  operated-Inv :
      {s : Life} (files : ℕ) (op : Operation)
      → Inv s
      → s.loaded ≡ true
      → Inv (operated k namespace_of s files op)
  operated-Inv {s} files op v e =
      run-Inv v files (λ f. absurd cc) (operate k namespace_of s.nvpkt op s.log)
        (operate-Orderly s.nvpkt op s.log v.books (v.complete e) v.audited)

  Step-Inv : (p : Platform) {s t : Life} → Step k namespace_of p s t → Inv s → Inv t
  Step-Inv p (insmod e) v = load-Inv p v e
  Step-Inv p (rmmod e f) v = unload-Inv v e f
  Step-Inv p {s} (opens e) v = operated-Inv (s.files + 1) open_file v e
  Step-Inv p {s} (releases h) v = operated-Inv (s.files - 1) release_file v (opened-loaded v h)
  Step-Inv p {s} (reads buf count h) v =
      operated-Inv s.files (read_file buf count) v (opened-loaded v h)
  Step-Inv p {s} (writes buf count h) v =
      operated-Inv s.files (write_file buf count) v (opened-loaded v h)
  Step-Inv p {s} (requests cmd arg h) v =
      operated-Inv s.files (unlocked_ioctl cmd arg) v (opened-loaded v h)

  -- In every order of loading, opening, requests and unloading that the kernel allows, whatever it
  -- answers within its documentation, as long as no packet length wraps the size of its buffer to 0:
  -- the driver follows no NULL pointer, gives back nothing that it does not hold, and whenever no
  -- operation is under way it holds no request and no user page, and holds one partition, one network
  -- device and one misc device exactly while it is loaded, with every field of struct nvpkt set; and at
  -- least one reference to the disk is left for each loading.
  pub Reach-Inv : (p : Platform) {s : Life} → Reach k namespace_of p s → Inv s
  Reach-Inv p boot = booted-Inv
  Reach-Inv p (next r e) = Step-Inv p e (Reach-Inv p r)
