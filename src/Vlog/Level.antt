-- ===== src/Vlog/Level.antt =====
-- internal/vlog/vlog.go: the severities and their names.
use void_init.Base.{Bytes, codes}

pub data Level : Type 0 where
  info warn error : Level

-- `Level.String`
unfoldable pub level_string : Level → Bytes
level_string warn = codes "WARN"
level_string error = codes "ERROR"
level_string info = codes "INFO"
