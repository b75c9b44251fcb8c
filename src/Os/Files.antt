-- ===== src/Os/Files.antt =====
-- What the programs rely on of the file calls of `os`: the documented behaviour of `ReadFile`,
-- `WriteFile` and `Chmod`, for paths that name distinct files (no links lead from one to another).
pub mod Store
pub mod Copies
pub mod Changes
pub mod Owners
use mathlib.Core.Option
use void_init.Base.{ℕ, ◌≡◌, ◌≢◌, Bool, true, false, Option, none, some, Bytes, ok, err}
use void_init.Base.{Error, is_not_exist}
use void_init.Os.{Os}
use void_init.Vlog.Level.{Level}

-- A regular file: its bytes and its permissions.
pub record File : Type 0 where
  pub content : Bytes
  pub mode : ℕ

pub record FileLaws (O : Os) : Type 0 where
  -- The files of the host, and which of them the logger writes.
  pub file : O.State → Bytes → Option File
  pub is_log : Bytes → Bool
  pub read_file-ok :
      (p : Bytes) (s : O.State) {c : Bytes}
      → O.read_file p s ≡ ok c
      → Option.map File.content (file s p) ≡ some c
  pub read_file-missing :
      (p : Bytes) (s : O.State) {e : Error}
      → O.read_file p s ≡ err e
      → is_not_exist e ≡ true
      → file s p ≡ none
  -- The mode of a file that was there stays as it is; that of a new one depends on the umask.
  pub file-write_file :
      (p c : Bytes) (m : ℕ) (s : O.State) {t : O.State}
      → O.write_file p c m s ≡ (ok tt, t)
      → (k : ℕ) × (file t p ≡ some (record { content = c; mode = k }))
  pub file-chmod :
      (p : Bytes) (m : ℕ) (s : O.State) {t : O.State} {f : File}
      → O.chmod p m s ≡ (ok tt, t)
      → file s p ≡ some f
      → file t p ≡ some (record f { mode = m })
  -- Calls leave the other files alone, whether they succeed or not.
  pub write_file-frame :
      (p c : Bytes) (m : ℕ) (s : O.State) (q : Bytes)
      → q ≢ p
      → file (O.write_file p c m s).1 q ≡ file s q
  pub chmod-frame :
      (p : Bytes) (m : ℕ) (s : O.State) (q : Bytes) → q ≢ p → file (O.chmod p m s).1 q ≡ file s q
  pub log-frame :
      (l : Level) (m : Bytes) (s : O.State) (q : Bytes)
      → is_log q ≡ false
      → file (O.log l m s) q ≡ file s q
