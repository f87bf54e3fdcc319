-- ===== src/Driver/Life.antt =====
-- native-driver/nvpkt.c from insmod to rmmod: loading, the files that processes open, their operations
-- one at a time, and unloading, in every order that the kernel allows.
pub mod Inv
use nvpkt.Base.{
  ℕ, ◌+◌, ◌-◌, ◌<◌, ◌≡◌, Bool, true, false, Option, none, some, List, [], ◌∷◌, ℤ, pos, ltb_ℤ,
  if◌then◌else◌, not, ◌||◌,
}
use nvpkt.Driver.Kernel.{Namespace, Kernel, Log}
use nvpkt.Driver.Exec.{Outcome, done, oops, M, crash}
use nvpkt.Driver.Files.{
  Operation, open_file, release_file, read_file, write_file, unlocked_ioctl, nvpkt_fops,
}
use nvpkt.Driver.Module
use nvpkt.Driver.Module.{Nvpkt, cleared, Platform, init_module, exit_module}

-- The global `nvpkt`, whether the module is loaded, how many files are open on its device, how often
-- it was loaded, whether it followed a NULL pointer, and the two logs: of references, and of the calls
-- of the operations.
pub record Life : Type 0 where
  pub nvpkt : Nvpkt
  pub loaded : Bool
  pub files : ℕ
  pub loads : ℕ
  pub crashed : Bool
  pub refs : Module.Log
  pub log : Log

abbrev pub is_oops : {A : Type 0} → Outcome A → Bool
is_oops (done a) = false
is_oops oops = true

-- the machine before the first `insmod`
abbrev pub booted : Life
booted = record {
  nvpkt = cleared;
  loaded = false;
  files = 0;
  loads = 0;
  crashed = false;
  refs = [];
  log = [];
}

-- A module whose loading returned a negative status is not loaded.
unfoldable pub load : Platform → Life → Life
load p s =
    let (ret, n, l) = init_module p s.refs in
    let ok = not (ltb_ℤ ret (pos 0)) in
    record s { nvpkt = n; loaded = ok; loads = (if ok then s.loads + 1 else s.loads); refs = l }

unfoldable pub unload : Life → Life
unload s = record s { loaded = false; refs = exit_module s.refs }

module _ (k : Kernel) (namespace_of : ℕ → Namespace) where
  -- The requests go through `nvpkt.disk` and `nvpkt.netdev`, the other operations through neither.
  abbrev pub with_fields : Option ℕ → Option ℕ → (cmd arg : ℕ) → M ℤ
  with_fields (some disk) (some netdev) cmd arg =
      nvpkt_fops k (namespace_of disk) netdev (unlocked_ioctl cmd arg)
  with_fields (some disk) none cmd arg = crash
  with_fields none _ cmd arg = crash

  unfoldable pub operate : Nvpkt → Operation → M ℤ
  operate n (unlocked_ioctl cmd arg) = with_fields n.disk n.netdev cmd arg
  operate n open_file = nvpkt_fops k (namespace_of 0) 0 open_file
  operate n release_file = nvpkt_fops k (namespace_of 0) 0 release_file
  operate n (read_file buf count) = nvpkt_fops k (namespace_of 0) 0 (read_file buf count)
  operate n (write_file buf count) = nvpkt_fops k (namespace_of 0) 0 (write_file buf count)

  -- the state behind an operation, with `files` open
  abbrev pub operated : Life → (files : ℕ) → Operation → Life
  operated s files op =
      let (r, l) = operate s.nvpkt op s.log in
      record s { files = files; crashed = s.crashed || is_oops r; log = l }

  -- What may come next. Each open file holds the module (`.owner = THIS_MODULE`), which is unloaded
  -- only when there is none.
  pub data Step (p : Platform) (s : Life) : Life → Type 0 where
    insmod : s.loaded ≡ false → Step p s (load p s)
    rmmod : s.loaded ≡ true → s.files ≡ 0 → Step p s (unload s)
    opens : s.loaded ≡ true → Step p s (operated s (s.files + 1) open_file)
    releases : 0 < s.files → Step p s (operated s (s.files - 1) release_file)
    reads : (buf count : ℕ) → 0 < s.files → Step p s (operated s s.files (read_file buf count))
    writes : (buf count : ℕ) → 0 < s.files → Step p s (operated s s.files (write_file buf count))
    requests : (cmd arg : ℕ) → 0 < s.files → Step p s (operated s s.files (unlocked_ioctl cmd arg))

  pub data Reach (p : Platform) : Life → Type 0 where
    boot : Reach p booted
    next : {s t : Life} → Reach p s → Step p s t → Reach p t
