-- ===== src/Vlog/Logger.antt =====
-- internal/vlog/vlog.go: lines for the standard error and, if it could be opened, the log file.
pub mod Calls
pub mod History
mod Tests
use void_init.Base.{
  ℕ, Option, none, some, [], ◌∷◌, ◌++◌, Bytes, codes, message, Result, ok, err, if◌then◌else◌,
}
use void_init.Text.Decimal.{decimal}
use void_init.Text.Trim.{is_empty}
use void_init.Vlog.Level.{Level, info, warn, error, level_string}
use void_init.Vlog.Disk.{Disk}
use void_init.Vlog.Rotate.{RotatingWriter, open_rotating_writer, write, close}

-- `Logger`. Its only writer is a `rotatingWriter`.
pub record Logger (D : Disk) : Type 0 where
  pub program : Bytes
  pub file : Option (RotatingWriter D)

module _ (D : Disk) where
  with_file : Bytes → Result (RotatingWriter D) → D.State → Logger D × D.State
  with_file program (ok w) s = (record { program = program; file = some w }, s)
  with_file program (err e) s =
      let warning =
        program ++ codes ": warning: " ++ message e ++ codes " (logging to stderr only)\n" in
      (record { program = program; file = none }, D.stderr warning s)

  -- `New`: with no path, or where the file cannot be opened, the lines go to stderr alone.
  unfoldable pub new : Bytes → Bytes → D.State → Logger D × D.State
  unfolding open_rotating_writer with_file
  new program log_path s =
      let (opened, t) = open_rotating_writer D log_path s in
      if is_empty log_path
      then (record { program = program; file = none }, s)
      else with_file program opened t

  host_name : Result Bytes → Bytes
  host_name (ok name) = name
  host_name (err _) = codes "-"

  -- The line of `logf`, for a message that is already formatted.
  unfoldable pub line : Bytes → Level → Bytes → D.State → Bytes
  unfolding host_name level_string
  line program level text s =
      D.timestamp s
      ++ codes " "
      ++ host_name (D.hostname s)
      ++ codes " "
      ++ program
      ++ codes "["
      ++ decimal (D.getpid s)
      ++ codes "]: "
      ++ level_string level
      ++ codes ": "
      ++ text
      ++ codes "\n"

  -- `fmt.Fprint` on the file: what it returns is not looked at.
  write_line : Option (RotatingWriter D) → Bytes → D.State → Option (RotatingWriter D) × D.State
  unfolding write
  write_line none x s = (none, s)
  write_line (some w) x s = let (_, v, t) = write D w x s in (some v, t)

  -- `logf`
  unfoldable pub logf : Logger D → Level → Bytes → D.State → Logger D × D.State
  unfolding line write_line
  logf l level text s =
      let x = line l.program level text s in
      let (file, t) = write_line l.file x (D.stderr x s) in (record l { file = file }, t)

  -- `Info`, `Warn` and `Error`
  unfoldable pub log_info : Logger D → Bytes → D.State → Logger D × D.State
  unfolding logf
  log_info l text s = logf l info text s

  unfoldable pub log_warn : Logger D → Bytes → D.State → Logger D × D.State
  unfolding logf
  log_warn l text s = logf l warn text s

  unfoldable pub log_error : Logger D → Bytes → D.State → Logger D × D.State
  unfolding logf
  log_error l text s = logf l error text s

  -- `Close`: an error of the file is not looked at.
  unfoldable pub close_logger : Logger D → D.State → D.State
  unfolding close
  close_logger l s = elim l.file [ none ↦ s | some w ↦ (close D w s).1 ]
