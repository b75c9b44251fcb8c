-- ===== src/Vlog/Disk.antt =====
-- What internal/vlog calls of the host: `os` on the log's files, the standard error, and what a
-- line names. A `Handle` is an open `*os.File`.
pub mod Handles
pub mod Memory
use void_init.Base.{ℕ, zero, ◌+◌, ◌≡◌, ◌≢◌, true, Bytes, Error, is_not_exist, Result, ok, err, Exec}
use void_init.Base.{Option, none, some, [], ◌++◌, length}
use void_init.Text.FilePath.{dir_part}

pub record Disk : Type 1 where
  pub State : Type 0
  pub Handle : Type 0
  pub mkdir_all : Bytes → ℕ → Exec State (Unit {0})
  pub stat_size : Bytes → State → Result ℕ
  pub remove : Bytes → Exec State (Unit {0})
  pub rename : Bytes → Bytes → Exec State (Unit {0})
  pub open_append : Bytes → ℕ → Exec State Handle
  pub handle_size : Handle → State → Result ℕ
  -- The number of bytes that were written comes back beside the error.
  pub write : Handle → Bytes → State → (ℕ × Result (Unit {0})) × State
  pub close : Handle → Exec State (Unit {0})
  pub stderr : Bytes → State → State
  pub hostname : State → Result Bytes
  -- The time as `Jan _2 15:04:05`.
  pub timestamp : State → Bytes
  pub getpid : State → ℕ

-- The documented behaviour of the calls, for names that are distinct files.
pub record DiskLaws (D : Disk) : Type 0 where
  -- The bytes of each file, and the name by which a handle was opened.
  pub content : D.State → Bytes → Option Bytes
  pub opened : D.State → D.Handle → Option Bytes
  pub remove-ok :
      (p : Bytes) (s : D.State) {t : D.State} → D.remove p s ≡ (ok tt, t) → content t p ≡ none
  pub remove-missing :
      (p : Bytes) (s : D.State) {e : Error} {t : D.State}
      → D.remove p s ≡ (err e, t)
      → is_not_exist e ≡ true
      → content t p ≡ none
  pub remove-frame :
      (p : Bytes) (s : D.State) (q : Bytes) → q ≢ p → content (D.remove p s).1 q ≡ content s q
  pub rename-ok :
      (p q : Bytes) (s : D.State) {t : D.State}
      → q ≢ p
      → D.rename p q s ≡ (ok tt, t)
      → (content t q ≡ content s p) × (content t p ≡ none)
  -- Between names in one directory, only the source can be missing. A failed call changes nothing.
  pub rename-missing :
      (p q : Bytes) (s : D.State) {e : Error} {t : D.State}
      → dir_part q ≡ dir_part p
      → D.rename p q s ≡ (err e, t)
      → is_not_exist e ≡ true
      → (content s p ≡ none) × (content t p ≡ content s p) × (content t q ≡ content s q)
  pub rename-frame :
      (p q : Bytes) (s : D.State) (r : Bytes)
      → r ≢ p
      → r ≢ q
      → content (D.rename p q s).1 r ≡ content s r
  -- `O_CREATE|O_APPEND`: a missing file is made empty, any other is as it was.
  pub open-created :
      (p : Bytes) (m : ℕ) (s : D.State) {h : D.Handle} {t : D.State}
      → D.open_append p m s ≡ (ok h, t)
      → content s p ≡ none
      → (content t p ≡ some []) × (opened t h ≡ some p)
  pub open-frame :
      (p : Bytes) (m : ℕ) (s : D.State) (q : Bytes)
      → q ≢ p
      → content (D.open_append p m s).1 q ≡ content s q
  -- A write that succeeds has appended all bytes.
  pub write-ok :
      (h : D.Handle) (x : Bytes) (s : D.State) {p c : Bytes} {n : ℕ} {t : D.State}
      → opened s h ≡ some p
      → content s p ≡ some c
      → D.write h x s ≡ ((n, ok tt), t)
      → (n ≡ length x) × (content t p ≡ some (c ++ x)) × (opened t h ≡ some p)
  pub write-frame :
      (h : D.Handle) (x : Bytes) (s : D.State) {p : Bytes} (q : Bytes)
      → opened s h ≡ some p
      → q ≢ p
      → content (D.write h x s).1 q ≡ content s q
  pub close-frame :
      (h : D.Handle) (s : D.State) (q : Bytes) → content (D.close h s).1 q ≡ content s q
