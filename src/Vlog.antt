-- ===== src/Vlog.antt =====
-- internal/vlog: the leveled logger and its rotating file.
pub mod Level
pub mod Disk
pub mod Rotate
pub mod Logger
