-- ===== src/Initfs.antt =====
-- cmd/void-initfs: the program that builds an image.
pub mod Util
pub mod Layout
pub mod Flags
pub mod Exec
pub mod Cleanup
pub mod Nbd
pub mod Image
pub mod Install
pub mod Grub
pub mod Fstab
pub mod Bootstrap
pub mod Bootloader
pub mod Shutdown
pub mod BashPrompt
pub mod Xbps
pub mod Preflight
pub mod Run
pub mod Main
pub mod Log
