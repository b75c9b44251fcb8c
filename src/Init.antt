-- ===== src/Init.antt =====
-- cmd/void-init: the program that configures a machine at boot.
pub mod Fsutil
pub mod UserData
pub mod Apply
pub mod Runit
pub mod Network
pub mod Hosts
pub mod Cloudinit
pub mod Main
pub mod Log
