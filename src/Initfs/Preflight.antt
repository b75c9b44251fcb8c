-- ===== src/Initfs/Preflight.antt =====
-- cmd/void-initfs/preflight.go: the tools that a run needs.
pub mod Laws
use void_init.Base.{
  Bool, not, List, [], ◌∷◌, ◌++◌, Bytes, codes, text, Result, ok, err, Exec, ◌==◌, if◌then◌else◌,
  when,
}
use void_init.Os.{Os}
use void_init.Text.Parts.{shown}
use void_init.Text.Trim.{is_empty}
use void_init.Initfs.Xbps.{ensure_xbps}
use void_init.Initfs.Xbps.Download.{Remote}
use void_init.Initfs.Xbps.Tools.{missing_of}

-- `requiredTools`
abbrev pub required_tools : List Bytes
required_tools =
    codes "systemd-nspawn"
    ∷ codes "qemu-img"
    ∷ codes "qemu-nbd"
    ∷ codes "sgdisk"
    ∷ codes "partprobe"
    ∷ codes "udevadm"
    ∷ codes "mkfs.vfat"
    ∷ codes "mkfs.ext2"
    ∷ codes "mkfs.ext4"
    ∷ codes "blkid"
    ∷ codes "mount"
    ∷ codes "umount"
    ∷ codes "grub-install"
    ∷ codes "grub-mkconfig"
    ∷ []

module _ (O : Os) (R : Remote O) where
  -- `preflight`
  unfoldable pub preflight : Bool → Bool → Bool → Exec O.State (Unit {0})
  preflight need_xbps update_xbps assume_yes s =
      let missing = missing_of O required_tools s in
      if not (O.geteuid s == 0)
      then (err (text (codes "void-initfs must run as root")), s)
      else if not (is_empty missing)
      then (err (text (codes "missing required tools: " ++ shown missing)), s)
      else when need_xbps (ensure_xbps O R update_xbps assume_yes) s
