-- ===== src/Init/Log.antt =====
-- cmd/void-init/log.go: the log of void-init, on the standard error and in a file.
mod Tests
use void_init.Base.{Bytes, codes}
use void_init.Vlog.Disk.{Disk}
use void_init.Vlog.Logger.{Logger, new, close_logger}
use void_init.Vlog.Logger

-- `logPath`
abbrev pub log_path : Bytes
log_path = codes "/var/log/void-init/void-init.log"

module _ (D : Disk) where
  -- `logger`, as the program's start makes it. The calls below pass on what becomes of it.
  unfoldable pub logger : D.State → Logger D × D.State
  unfolding new
  logger = new D (codes "void-init") log_path

  -- `closeLog`
  unfoldable pub close_log : Logger D → D.State → D.State
  unfolding close_logger
  close_log l = close_logger D l

  -- `logInfo`, `logWarn` and `logError`, for messages that are already formatted.
  unfoldable pub log_info : Logger D → Bytes → D.State → Logger D × D.State
  unfolding Logger.log_info
  log_info l text = Logger.log_info D l text

  unfoldable pub log_warn : Logger D → Bytes → D.State → Logger D × D.State
  unfolding Logger.log_warn
  log_warn l text = Logger.log_warn D l text

  unfoldable pub log_error : Logger D → Bytes → D.State → Logger D × D.State
  unfolding Logger.log_error
  log_error l text = Logger.log_error D l text
