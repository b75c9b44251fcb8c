-- ===== src/Os/Files/Copies.antt =====
-- What a copy of a file relies on of the calls of `os`: the documented behaviour of `OpenFile` with
-- `O_CREATE|O_TRUNC`, of `io.Copy` between two open files, and of the calls on directories.
use void_init.Base.{
  ℕ, ◌≡◌, ◌≢◌, Bool, ◌||◌, some, none, Option, [], ◌++◌, Bytes, codes, equal, ok, if◌then◌else◌,
}
use void_init.Text.Search.{has_prefix}
use void_init.Os.{Os}
use void_init.Os.Files.{File, FileLaws}

-- Whether a path is that of a directory or lies below it.
unfoldable pub is_below : Bytes → Bytes → Bool
is_below dir path = equal path dir || has_prefix path (dir ++ codes "/")

-- The files of a host without those of one directory.
abbrev pub cleared : Bytes → (Bytes → Option File) → Bytes → Option File
cleared dir files path = if is_below dir path then none else files path

pub record CopyLaws {O : Os} (L : FileLaws O) : Type 0 where
  pub open_truncate-ok :
      (p : Bytes) (m : ℕ) (s : O.State) {t : O.State}
      → O.open_truncate p m s ≡ (ok tt, t)
      → (k : ℕ) × (L.file t p ≡ some (record { content = []; mode = k }))
  pub open_truncate-frame :
      (p : Bytes) (m : ℕ) (s : O.State) (q : Bytes)
      → q ≢ p
      → L.file (O.open_truncate p m s).1 q ≡ L.file s q
  -- From the start of one regular file to the start of another, which is empty.
  pub copy-ok :
      (p q : Bytes) (s : O.State) {t : O.State} {f : File} {k : ℕ}
      → L.file s p ≡ some f
      → L.file s q ≡ some (record { content = []; mode = k })
      → O.copy p q s ≡ (ok tt, t)
      → L.file t q ≡ some (record { content = f.content; mode = k })
  pub copy-frame :
      (p q : Bytes) (s : O.State) (r : Bytes) → r ≢ q → L.file (O.copy p q s).1 r ≡ L.file s r
  -- Directories are no files: to make one leaves the files alone, to remove one removes its own.
  pub mkdir_all-frame :
      (p : Bytes) (m : ℕ) (s : O.State) (q : Bytes) → L.file (O.mkdir_all p m s).1 q ≡ L.file s q
  pub remove_all-ok :
      (p : Bytes) (s : O.State) {t : O.State} (q : Bytes)
      → O.remove_all p s ≡ (ok tt, t)
      → L.file t q ≡ cleared p (L.file s) q
