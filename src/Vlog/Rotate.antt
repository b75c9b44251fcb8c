-- ===== src/Vlog/Rotate.antt =====
-- internal/vlog/rotate.go: a log file that rotates itself. Sizes are Go's `int64` and stay far
-- below its end, since a segment that is larger than `max_log_size` is a single write.
pub mod Shift
pub mod Write
pub mod History
pub mod Reach
pub mod Opening
use void_init.Base.{
  ℕ, Bool, zero, suc, ◌+◌, ◌*◌, [], ◌∷◌, ◌++◌, ◌&&◌, Bytes, codes, length, ltb, leb, if◌then◌else◌,
  Error, Result, ok, err, Exec, pure, lift, is_not_exist, in_context, wrapping, ◌>>=◌, ◌>>◌,
}
use void_init.Text.Decimal.{decimal}
use void_init.Text.FilePath.{dir}
use void_init.Vlog.Disk.{Disk}

-- 50 MiB
abbrev pub max_log_size : ℕ
max_log_size = 50 * 1024 * 1024

abbrev pub max_log_backups : ℕ
max_log_backups = 5

-- `fmt.Sprintf("%s.%d", path, n)`
unfoldable pub backup : Bytes → ℕ → Bytes
backup path n = path ++ (b'.' ∷ decimal n)

-- `rotatingWriter`
pub record RotatingWriter (D : Disk) : Type 0 where
  pub path : Bytes
  pub file : D.Handle
  pub size : ℕ

module _ {S : Type 0} where
  -- `if err := call; err != nil && !os.IsNotExist(err) { return fmt.Errorf("<before>: %w", err) }`
  unfoldable pub unless_missing : Bytes → Exec S (Unit {0}) → Exec S (Unit {0})
  unless_missing before call s =
      let (r, t) = call s in
      (
        elim r [
          | ok _ ↦ ok tt
          | err e ↦ (if is_not_exist e then ok tt else err (in_context before e))
        ],
        t,
      )

-- The test of `Write`, at the size of the file.
abbrev pub must_rotate : ℕ → Bytes → Bool
must_rotate size p = ltb 0 size && ltb max_log_size (size + length p)

module _ (D : Disk) where
  rename_backup : Bytes → Bytes → Exec D.State (Unit {0})
  unfolding unless_missing
  rename_backup src dst =
      unless_missing (codes "rename " ++ src ++ codes " to " ++ dst) (D.rename src dst)

  -- The loop `for n := maxLogBackups - 1; n >= 1; n--`, with `n` rounds left.
  unfoldable pub shift_backups : Bytes → ℕ → Exec D.State (Unit {0})
  unfolding rename_backup
  shift_backups path zero = pure tt
  shift_backups path (suc n) =
      rename_backup (backup path (suc n)) (backup path (suc (suc n))) >> shift_backups path n

  unfoldable pub rotate_log_file : Bytes → Exec D.State (Unit {0})
  unfolding unless_missing shift_backups
  rotate_log_file path = do
    let oldest = backup path max_log_backups
    unless_missing (codes "remove " ++ oldest) (D.remove oldest)
    shift_backups path 4
    rename_backup path (backup path 1)

  -- `(*rotatingWriter).rotate`
  unfoldable pub rotate : RotatingWriter D → Exec D.State (RotatingWriter D)
  unfolding rotate_log_file
  rotate w = do
    wrapping (codes "close " ++ w.path) (D.close w.file)
    rotate_log_file w.path
    file ← wrapping (codes "open " ++ w.path) (D.open_append w.path 0o644)
    pure (record w { file = file; size = 0 })

  -- The writer that `Write` appends to: rotated first, if `p` would push the file past the limit.
  unfoldable pub make_room : RotatingWriter D → Bytes → Exec D.State (RotatingWriter D)
  unfolding rotate
  make_room w p = if must_rotate w.size p then rotate w else pure w

  unfoldable pub append :
      RotatingWriter D → Bytes → D.State → (ℕ × Result (Unit {0})) × RotatingWriter D × D.State
  append w p s =
      let (returned, t) = D.write w.file p s in
      (returned, record w { size = w.size + returned.0 }, t)

  -- The rest of `Write` behind the rotation.
  abbrev pub append_into :
      RotatingWriter D
      → Bytes
      → Result (RotatingWriter D)
      → D.State
      → (ℕ × Result (Unit {0})) × RotatingWriter D × D.State
  append_into w p (ok v) t = append v p t
  append_into w p (err e) t = ((0, err e), w, t)

  -- `Write`: what it returns, the writer as it is then, and the host. A failed rotation writes
  -- nothing and leaves the writer with its old file and size.
  unfoldable pub write :
      RotatingWriter D → Bytes → D.State → (ℕ × Result (Unit {0})) × RotatingWriter D × D.State
  unfolding make_room append
  write w p s = let (room, t) = make_room w p s in append_into w p room t

  rotate_if_full : Bytes → Exec D.State (Unit {0})
  unfolding rotate_log_file
  rotate_if_full path s = elim (D.stat_size path s) [
    | ok size ↦ (if leb max_log_size size then rotate_log_file path else pure tt) s
    | err _ ↦ (ok tt, s)
  ]

  -- `f.Stat()`, with the file closed where it fails.
  size_or_close : Bytes → D.Handle → Exec D.State ℕ
  size_or_close path file s = elim (D.handle_size file s) [
    | ok size ↦ (ok size, s)
    | err e ↦ (err (in_context (codes "stat " ++ path) e), (D.close file s).1)
  ]

  unfoldable pub open_rotating_writer : Bytes → Exec D.State (RotatingWriter D)
  unfolding rotate_if_full size_or_close
  open_rotating_writer path = do
    wrapping (codes "create " ++ dir path) (D.mkdir_all (dir path) 0o755)
    rotate_if_full path
    file ← wrapping (codes "open " ++ path) (D.open_append path 0o644)
    size ← size_or_close path file
    pure (record { path = path; file = file; size = size })

  -- `Close`
  unfoldable pub close : RotatingWriter D → Exec D.State (Unit {0})
  close w = D.close w.file
