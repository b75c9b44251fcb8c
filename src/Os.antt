-- ===== src/Os.antt =====
-- The host that both commands run on: what they call of Go's `os`, `os/exec`, `os/user`, `syscall`,
-- `net` and `path/filepath`, over an unknown state. A call that changes the host gives the new
-- state beside its result, also where it fails; a call that only reads it is a function of the
-- state. The logger of internal/vlog is reached by `log`, which never fails.
pub mod Files
pub mod Memory
use void_init.Base.{ℕ, Bool, List, Bytes, Result, ok, Exec}
use void_init.Text.Atoi.{ℤ}
use void_init.Vlog.Level.{Level, info, warn, error}

-- What `os.Stat` tells of a file.
pub record FileInfo : Type 0 where
  pub size : ℕ
  pub mode : ℕ

-- One entry of `os.ReadDir`.
pub record DirEntry : Type 0 where
  pub name : Bytes
  pub is_dir : Bool

-- An `exec.Command`: the variables added to the environment, the words, and the standard input.
pub record Command : Type 0 where
  pub env : List Bytes
  pub args : List Bytes
  pub stdin : Bytes

-- Its combined output, and what `Run` returns.
pub record Reply : Type 0 where
  pub output : Bytes
  pub status : Result (Unit {0})

-- The fields of `user.User` that the program reads.
pub record Account : Type 0 where
  pub uid : Bytes
  pub gid : Bytes
  pub home_dir : Bytes

-- The fields of `net.Interface` that the program reads.
pub record Interface : Type 0 where
  pub name : Bytes
  pub hardware_addr : Bytes

pub record Os : Type 1 where
  pub State : Type 0
  -- `%q` of `fmt`, which goes by Unicode's table of printable runes.
  pub quote : Bytes → Bytes
  pub log : Level → Bytes → State → State
  pub geteuid : State → ℕ
  pub getenv : Bytes → State → Bytes
  pub setenv : Bytes → Bytes → State → State
  pub read_file : Bytes → State → Result Bytes
  pub write_file : Bytes → Bytes → ℕ → Exec State (Unit {0})
  pub chmod : Bytes → ℕ → Exec State (Unit {0})
  pub chown : Bytes → ℤ → ℤ → Exec State (Unit {0})
  pub stat : Bytes → State → Result FileInfo
  pub lstat : Bytes → State → Result (Unit {0})
  pub remove : Bytes → Exec State (Unit {0})
  pub remove_all : Bytes → Exec State (Unit {0})
  pub symlink : Bytes → Bytes → Exec State (Unit {0})
  pub mkdir : Bytes → ℕ → Exec State (Unit {0})
  pub mkdir_all : Bytes → ℕ → Exec State (Unit {0})
  pub mkdir_temp : Bytes → Exec State Bytes
  pub read_dir : Bytes → State → Result (List DirEntry)
  pub glob : Bytes → State → Result (List Bytes)
  -- `copyFile`'s `os.Open`, its `os.OpenFile` and its `io.Copy`
  pub open_read : Bytes → State → Result (Unit {0})
  pub open_truncate : Bytes → ℕ → Exec State (Unit {0})
  pub copy : Bytes → Bytes → Exec State (Unit {0})
  pub look_path : Bytes → State → Result Bytes
  pub run : Command → State → Reply × State
  pub set_hostname : Bytes → Exec State (Unit {0})
  pub lookup_user : Bytes → State → Result Account
  pub interfaces : State → Result (List Interface)
  pub mount : Bytes → Bytes → Exec State (Unit {0})
  pub unmount : Bytes → State → State

-- `logInfo`, `logWarn` and `logError` of cmd/void-init/log.go and cmd/void-initfs/log.go.
module _ (O : Os) where
  abbrev pub log_info : Bytes → Exec O.State (Unit {0})
  log_info m s = (ok tt, O.log info m s)

  abbrev pub log_warn : Bytes → Exec O.State (Unit {0})
  log_warn m s = (ok tt, O.log warn m s)

  abbrev pub log_error : Bytes → Exec O.State (Unit {0})
  log_error m s = (ok tt, O.log error m s)
