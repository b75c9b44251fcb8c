-- ===== src/Initfs/Bootloader.antt =====
-- cmd/void-initfs/bootloader.go: the installation of GRUB and its configuration.
pub mod Laws
mod Tests
use void_init.Base.{
  ℕ, zero, suc, ◌%◌, List, [], ◌∷◌, ◌++◌, map, Bytes, codes, Result, Exec, pure, query, wrapping,
  ◌>>=◌, ◌>>◌,
}
use void_init.Os.{Os, FileInfo, log_info}
use void_init.Text.FilePath.{join_path, base}
use void_init.Text.Parts.{split, join}
use void_init.Initfs.Exec.{nspawn}
use void_init.Initfs.Fstab.{partition_uuid}
use void_init.Initfs.Grub.{grub_fastboot_settings, fastboot_lines}
use void_init.Initfs.Layout.{
  Layout, bios, efi, layout_string, partition_count, partition_device, nbd_device,
  root_partition_device, boot_partition_device,
}
use void_init.Initfs.Util.{write_file}

-- `byUUIDSymlink`
unfoldable pub by_uuid_symlink : Bytes → Bytes → Bytes
by_uuid_symlink dev uuid = codes "ln -sf ../../" ++ base dev ++ codes " /dev/disk/by-uuid/" ++ uuid

-- The loop `for n := 1; n <= count; n++` of `installBootloader`, from `n` on.
partition_binds : ℕ → ℕ → List Bytes
partition_binds n zero = []
partition_binds n (suc count) =
    (codes "--bind=" ++ partition_device n) ∷ partition_binds (suc n) count

-- The devices that the container sees.
unfoldable pub binds : Layout → List Bytes
unfolding partition_binds
binds l = (codes "--bind=" ++ nbd_device) ∷ partition_binds 1 (partition_count l)

-- `grubArgs`
unfoldable pub grub_args : Layout → List Bytes
grub_args bios =
    codes "grub-install"
    ∷ codes "--target=i386-pc"
    ∷ codes "--boot-directory=/boot"
    ∷ nbd_device
    ∷ []
grub_args efi =
    codes "grub-install"
    ∷ codes "--target=x86_64-efi"
    ∷ codes "--efi-directory=/boot/efi"
    ∷ codes "--boot-directory=/boot"
    ∷ codes "--removable"
    ∷ []

abbrev pub grub_path : Bytes → Bytes
grub_path root = join_path (root ∷ codes "etc" ∷ codes "default" ∷ codes "grub" ∷ [])

module _ (O : Os) where
  -- The loop of `grubMkconfigCommand` over the devices.
  symlinks : List Bytes → Exec O.State (List Bytes)
  symlinks [] = pure []
  symlinks (dev ∷ devs) = do
    uuid ← partition_uuid O dev
    rest ← symlinks devs
    pure (by_uuid_symlink dev uuid ∷ rest)

  -- `grubMkconfigCommand`
  unfoldable pub grub_mkconfig_command : Layout → Exec O.State (List Bytes)
  unfolding symlinks
  grub_mkconfig_command l = do
    links ← symlinks (boot_partition_device l ∷ root_partition_device l ∷ [])
    let commands =
        (codes "mkdir -p /dev/disk/by-uuid" ∷ links)
        ++ codes "grub-mkconfig -o /boot/grub/grub.cfg" ∷ []
    pure (codes "sh" ∷ codes "-c" ∷ join commands (codes " && ") ∷ [])

  -- `setGrubFastboot`
  unfoldable pub set_grub_fastboot : Bytes → Exec O.State (Unit {0})
  set_grub_fastboot root = do
    let path = grub_path root
    info ← wrapping (codes "stat " ++ path) (query (O.stat path))
    content ← wrapping (codes "read " ++ path) (query (O.read_file path))
    let lines = fastboot_lines grub_fastboot_settings (split content b'\n')
    log_info O (codes "setting grub fastboot options in " ++ path)
    write_file O path (join lines (codes "\n")) (info.mode % 0o1000)

  fastboot_if_efi : Bytes → Layout → Exec O.State (Unit {0})
  unfolding set_grub_fastboot
  fastboot_if_efi root efi = set_grub_fastboot root
  fastboot_if_efi root bios = pure tt

  -- `installBootloader`; its `default` is for values that no layout has.
  unfoldable pub install_bootloader : Bytes → Layout → Exec O.State (Unit {0})
  unfolding fastboot_if_efi
  install_bootloader root l = do
    log_info O (codes "installing bootloader (" ++ layout_string l ++ codes ") into " ++ root)
    nspawn O root (binds l) (grub_args l)
    fastboot_if_efi root l
    mkconfig ← grub_mkconfig_command l
    nspawn O root (binds l) mkconfig
