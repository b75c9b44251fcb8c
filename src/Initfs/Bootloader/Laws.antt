-- ===== src/Initfs/Bootloader/Laws.antt =====
-- What the container of the bootloader sees of the host, and the file that GRUB's menu is made from.
use void_init.Base.{
  ◌≡◌, ◌≢◌, refl, ap, sym, subst, ◌∙◌, ◌%◌, List, [], ◌∷◌, ◌++◌, map, All, Bytes, codes, ok,
}
use void_init.Base.Effects.Laws.{bind-eq-ok, query-eq-ok}
use void_init.Os.{Os, FileInfo}
use void_init.Os.Files.{FileLaws}
use void_init.Os.Files.Changes.{Puts, Puts-behind, log-Unchanged}
use void_init.Text.Parts.{split, join}
use void_init.Initfs.Grub.{grub_fastboot_settings, fastboot_lines}
use void_init.Initfs.Grub.Settings.{other_lines, setting, timeout}
use void_init.Initfs.Grub.Laws.{Holds, fastboot_lines-Holds, fastboot_lines-other_lines}
use void_init.Initfs.Grub.Lines.{split-fastboot_lines}
use void_init.Initfs.Util.Copies.{stored_entry, write_file-Puts}
use void_init.Initfs.Bootloader.{binds, grub_path, set_grub_fastboot}
use void_init.Initfs.Layout.{
  Layout, bios, efi, PartitionSpec, partition_specs, partition_device, nbd_device,
}

-- The device node of a partition of the table.
abbrev pub device_of : PartitionSpec → Bytes
device_of p = partition_device p.num

-- The container sees the disk and exactly the partitions of the layout's table, in their order.
pub binds-partition_specs :
    (l : Layout)
    → binds l ≡ map (λ dev. codes "--bind=" ++ dev) (nbd_device ∷ map device_of (partition_specs l))
unfolding binds partition_specs
binds-partition_specs bios = refl
binds-partition_specs efi = refl

not-nil : (lines : List Bytes) → Holds (setting timeout) lines → lines ≢ []
not-nil [] (_, ne) = absurd (ne refl)
not-nil (line ∷ lines) h = cc

module _ {O : Os} (L : FileLaws O) where
  -- A rewrite of an image's /etc/default/grub that succeeds has read the file and its mode, and put
  -- a new text over it, up to the trailing blanks, with the permissions that it had; no other file
  -- changes, but for the logger's. In the lines of that text each fast boot setting has an
  -- assignment and none that gives another value, and the lines that no setting is about are those
  -- of the old file, in their order.
  pub set_grub_fastboot-Fast :
      (root : Bytes) (s : O.State) {t : O.State}
      → set_grub_fastboot O root s ≡ (ok tt, t)
      → (info : FileInfo) × (old new : Bytes) × (O.stat (grub_path root) s ≡ ok info)
        × (O.read_file (grub_path root) s ≡ ok old)
        × Puts L (stored_entry (grub_path root) new (info.mode % 0o1000) ∷ []) s t
        × All (λ g. Holds g (split new b'\n')) grub_fastboot_settings
        × (other_lines (split new b'\n') ≡ other_lines (split old b'\n'))
  unfolding set_grub_fastboot codes
  set_grub_fastboot-Fast root s {t} h =
      let (info, a, stats, h1) = bind-eq-ok _ _ s h in
      let (old, b, reads, h2) = bind-eq-ok _ _ a h1 in
      let (_, c, logged, wrote) = bind-eq-ok _ _ b h2 in
      let (stat, here) = query-eq-ok _ (O.stat (grub_path root)) s stats in
      let (read, there) = query-eq-ok _ (O.read_file (grub_path root)) a reads in
      let lines = split old b'\n' in
      let new = fastboot_lines grub_fastboot_settings lines in
      let held = fastboot_lines-Holds lines in
      let same = split-fastboot_lines old (not-nil new held.0) in
      (
        info,
        old,
        join new (codes "\n"),
        stat,
        subst (λ u. O.read_file (grub_path root) u ≡ ok old) (sym here) read,
        Puts-behind L _ (L.file s) c t
            (λ q n. log-Unchanged L _ b logged q n ∙ ap (λ u. L.file u q) (sym there ∙ sym here))
            (write_file-Puts L (grub_path root) (join new (codes "\n")) (info.mode % 0o1000) c t
              wrote),
        subst (λ l. All (λ g. Holds g l) grub_fastboot_settings) (sym same) held,
        ap other_lines same ∙ fastboot_lines-other_lines lines,
      )
