-- ===== src/Initfs/Image.antt =====
-- cmd/void-initfs/image.go: the image file, its partitions and file systems, and their mounts.
pub mod Laws
pub mod Mounts
pub mod Detect
mod Tests
use void_init.Base.{
  ℕ, Bool, true, false, List, [], ◌∷◌, ◌++◌, Bytes, codes, length, ◌==◌, if◌then◌else◌, Error, text,
  message, is_not_exist, in_context, Result, ok, err, Exec, pure, raise, query, when, for_each,
  wrapping, ◌>>=◌, ◌>>◌,
}
use void_init.Os.{Os, log_info, log_warn}
use void_init.Text.Decimal.{decimal}
use void_init.Text.FilePath.{join_path}
use void_init.Initfs.Exec.{command}
use void_init.Initfs.Cleanup.{Session, on_host, push}
use void_init.Initfs.Layout.{
  Layout, bios, efi, layout_string, partition_count, PartitionSpec, partition_specs, nbd_device,
  root_partition_device, boot_partition_device, efi_partition_device,
}

abbrev pub sgdisk_clear : List Bytes
sgdisk_clear = codes "sgdisk" ∷ codes "-o" ∷ nbd_device ∷ []

-- The command line that makes one partition.
unfoldable pub sgdisk : PartitionSpec → List Bytes
sgdisk p =
    codes "sgdisk"
    ∷ codes "-n"
    ∷ (decimal p.num ++ codes ":0:" ++ p.size)
    ∷ codes "-t"
    ∷ (decimal p.num ++ codes ":" ++ p.kind)
    ∷ codes "-c"
    ∷ (decimal p.num ++ codes ":" ++ p.name)
    ∷ nbd_device
    ∷ []

abbrev pub partprobe : List Bytes
partprobe = codes "partprobe" ∷ nbd_device ∷ []

abbrev pub settle : List Bytes
settle = codes "udevadm" ∷ codes "settle" ∷ []

module _ (O : Os) where
  -- `os.Remove`, where a file that is not there is no error.
  remove_existing : Bytes → Exec O.State (Unit {0})
  remove_existing path s =
      let (r, t) = O.remove path s in
      (
        elim r [
          | ok _ ↦ ok tt
          | err e ↦
              if is_not_exist e
              then ok tt
              else err (in_context (codes "remove existing " ++ path) e)
        ],
        t,
      )

  -- `createImage`
  unfoldable pub create_image : Bytes → Bool → Exec O.State (Unit {0})
  unfolding remove_existing
  create_image path force = do
    when force (remove_existing path)
    log_info O (codes "creating qcow2 image " ++ path ++ codes " (3G)")
    command O
        (codes "qemu-img" ∷ codes "create" ∷ codes "-f" ∷ codes "qcow2" ∷ path ∷ codes "3G" ∷ [])

  -- The kernel reads the table again, and udev makes the device nodes.
  unfoldable pub reread : Exec O.State (Unit {0})
  reread = do command O partprobe; command O settle

  -- `partition`
  unfoldable pub partition : Layout → Exec O.State (Unit {0})
  unfolding reread
  partition l = do
    log_info O
        (codes "partitioning " ++ nbd_device ++ codes " for " ++ layout_string l ++ codes " layout")
    command O sgdisk_clear
    for_each (λ p. command O (sgdisk p)) (partition_specs l)
    reread

  make_efi : Layout → Exec O.State (Unit {0})
  make_efi efi =
      command O
        (codes "mkfs.vfat" ∷ codes "-F32" ∷ codes "-n" ∷ codes "EFI" ∷ efi_partition_device ∷ [])
  make_efi bios = pure tt

  -- `makeFilesystems`
  unfoldable pub make_filesystems : Layout → Exec O.State (Unit {0})
  unfolding make_efi
  make_filesystems l = do
    make_efi l
    command O (codes "mkfs.ext2" ∷ codes "-L" ∷ codes "boot" ∷ boot_partition_device l ∷ [])
    command O (codes "mkfs.ext4" ∷ codes "-L" ∷ codes "root" ∷ root_partition_device l ∷ [])

  -- `%v` of an error goes to the log, and the error is dropped.
  abbrev warn_of : Bytes → Result (Unit {0}) × O.State → O.State
  warn_of before (ok _, s) = s
  warn_of before (err e, s) = (log_warn O (before ++ message e) s).1

  -- The callback that `mountAt` pushes.
  unfoldable pub unmount_at : Bytes → O.State → O.State
  unmount_at dir s =
      warn_of []
        (command O (codes "umount" ∷ dir ∷ []) (log_info O (codes "unmounting " ++ dir) s).1)

  -- The callback that `mount` pushes.
  unfoldable pub remove_root : Bytes → O.State → O.State
  remove_root root s = warn_of (codes "remove " ++ root ++ codes ": ") (O.remove_all root s)

  unfoldable pub push_callback : (O.State → O.State) → Exec (Session O.State) (Unit {0})
  push_callback f w = (ok tt, push f w)

  -- `mountAt`
  unfoldable pub mount_at : Bytes → Bytes → Exec (Session O.State) (Unit {0})
  mount_at dev dir = do
    on_host (log_info O (codes "mounting " ++ dev ++ codes " at " ++ dir))
    on_host (command O (codes "mount" ∷ dev ∷ dir ∷ []))
    push_callback (unmount_at dir)

  -- A directory below a mount, and the mount on it.
  mount_below : Bytes → Bytes → Exec (Session O.State) (Unit {0})
  mount_below dev dir = do
    on_host (wrapping (codes "create " ++ dir) (O.mkdir dir 0o755))
    mount_at dev dir

  mount_efi : Layout → Bytes → Exec (Session O.State) (Unit {0})
  unfolding mount_below
  mount_efi efi boot_dir =
      mount_below efi_partition_device (join_path (boot_dir ∷ codes "efi" ∷ []))
  mount_efi bios boot_dir = pure tt

  -- The rest of `mount`, once the directory `root` is there.
  mounts : Layout → Bytes → Exec (Session O.State) (Unit {0})
  unfolding mount_below mount_efi
  mounts l root = do
    push_callback (remove_root root)
    mount_at (root_partition_device l) root
    let boot_dir = join_path (root ∷ codes "boot" ∷ [])
    mount_below (boot_partition_device l) boot_dir
    mount_efi l boot_dir

  -- `mount`, which returns the target's `root`.
  unfoldable pub mount : Layout → Exec (Session O.State) Bytes
  unfolding mounts
  mount l = do
    root ← on_host (wrapping (codes "create mount root") (O.mkdir_temp (codes "void-initfs-root")))
    mounts l root
    pure root

  found : Layout → ℕ → Exec O.State Layout
  found l n = do
    log_info O (
        codes "found "
        ++ decimal n
        ++ codes " partitions on "
        ++ nbd_device
        ++ codes ", assuming "
        ++ layout_string l
        ++ codes " layout")
    pure l

  -- The `switch` of `detectLayout`, on the number of device nodes.
  layout_of : ℕ → Exec O.State Layout
  unfolding found
  layout_of n =
      if n == partition_count bios
      then found bios n
      else if n == partition_count efi
      then found efi n
      else raise (
          text (
            codes "found "
            ++ decimal n
            ++ codes " partitions on "
            ++ nbd_device
            ++ codes ", expected "
            ++ decimal (partition_count bios)
            ++ codes " (bios) or "
            ++ decimal (partition_count efi)
            ++ codes " (efi) - refusing to guess"))

  -- `detectLayout`
  unfoldable pub detect_layout : Exec O.State Layout
  unfolding reread layout_of
  detect_layout = do
    reread
    matches ←
        wrapping (codes "glob " ++ nbd_device ++ codes "p*")
          (query (O.glob (nbd_device ++ codes "p*")))
    layout_of (length matches)
