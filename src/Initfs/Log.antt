-- ===== src/Initfs/Log.antt =====
-- cmd/void-initfs/log.go: the log of void-initfs, on the standard error alone.
pub mod Laws
mod Tests
use void_init.Base.{[], Bytes, codes}
use void_init.Vlog.Disk.{Disk}
use void_init.Vlog.Logger.{Logger, new}
use void_init.Vlog.Logger

module _ (D : Disk) where
  -- `logger`, as the program's start makes it. The calls below pass on what becomes of it.
  unfoldable pub logger : D.State → Logger D × D.State
  unfolding new
  logger = new D (codes "void-initfs") []

  -- `logInfo`, `logWarn` and `logError`, for messages that are already formatted.
  unfoldable pub log_info : Logger D → Bytes → D.State → Logger D × D.State
  unfolding Logger.log_info
  log_info l text = Logger.log_info D l text

  unfoldable pub log_warn : Logger D → Bytes → D.State → Logger D × D.State
  unfolding Logger.log_warn
  log_warn l text = Logger.log_warn D l text

  unfoldable pub log_error : Logger D → Bytes → D.State → Logger D × D.State
  unfolding Logger.log_error
  log_error l text = Logger.log_error D l text
