-- ===== src/Os/Files/Owners.antt =====
-- What a program relies on of `os.Chown` and of the owners that the other calls leave.
use void_init.Base.{ℕ, ◌<◌, ◌≡◌, ◌≢◌, false, Option, some, Bytes, ok}
use void_init.Os.{Os}
use void_init.Os.Files.{File, FileLaws}
use void_init.Text.Atoi.{ℤ, pos}
use void_init.Vlog.Level.{Level}

pub record OwnerLaws {O : Os} (L : FileLaws O) : Type 0 where
  -- The user and the group that a path belongs to.
  pub owner : O.State → Bytes → Option (ℤ × ℤ)
  -- An id that is negative would be left as it is.
  pub chown-ok :
      (p : Bytes) (m n : ℕ) (s : O.State) {t : O.State}
      → O.chown p (pos m) (pos n) s ≡ (ok tt, t)
      → owner t p ≡ some (pos m, pos n)
  pub chown-frame :
      (p : Bytes) (u g : ℤ) (s : O.State) (q : Bytes)
      → q ≢ p
      → owner (O.chown p u g s).1 q ≡ owner s q
  -- The set-user-ID and set-group-ID bits may go; a mode without them stays, and so do the bytes.
  pub chown-file :
      (p : Bytes) (u g : ℤ) (s : O.State) {f : File}
      → f.mode < 0o1000
      → L.file s p ≡ some f
      → L.file (O.chown p u g s).1 p ≡ some f
  pub chown-other :
      (p : Bytes) (u g : ℤ) (s : O.State) (q : Bytes)
      → q ≢ p
      → L.file (O.chown p u g s).1 q ≡ L.file s q
  pub write_file-owner :
      (p c : Bytes) (m : ℕ) (s : O.State) (q : Bytes)
      → q ≢ p
      → owner (O.write_file p c m s).1 q ≡ owner s q
  pub chmod-owner :
      (p : Bytes) (m : ℕ) (s : O.State) (q : Bytes) → owner (O.chmod p m s).1 q ≡ owner s q
  pub log-owner :
      (l : Level) (m : Bytes) (s : O.State) (q : Bytes)
      → L.is_log q ≡ false
      → owner (O.log l m s) q ≡ owner s q
