-- ===== src/Initfs/Fstab.antt =====
-- cmd/void-initfs/fstab.go: the table of file systems. text/template is the parameter `parse`, which
-- turns the text of templates/etc/fstab into a function that renders it.
use void_init.Base.{[], ◌∷◌, ◌++◌, Bytes, codes, Result, Exec, pure, lift, wrapping, ◌>>=◌, ◌>>◌}
use void_init.Os.{Os, log_info}
use void_init.Text.Space.{trim_space}
use void_init.Initfs.Exec.{run_command}
use void_init.Initfs.Layout.{
  Layout, bios, efi, root_partition_device, boot_partition_device, efi_partition_device,
}
use void_init.Initfs.Util.{write_managed_file}

-- `fstabTemplateData`
pub record FstabTemplateData : Type 0 where
  pub root_uuid : Bytes
  pub boot_uuid : Bytes
  pub efi_uuid : Bytes

-- `partitionUUID`
unfoldable pub partition_uuid : (O : Os) → Bytes → Exec O.State Bytes
partition_uuid O dev = do
  output ←
      run_command O
        (codes "blkid" ∷ codes "-s" ∷ codes "UUID" ∷ codes "-o" ∷ codes "value" ∷ dev ∷ [])
  pure (trim_space output)

module _ (O : Os) (template : Bytes)
    (parse : Bytes → Result (FstabTemplateData → Result Bytes)) where
  -- The UUID of the EFI system partition, empty for the BIOS layout.
  efi_uuid_of : Layout → Exec O.State Bytes
  efi_uuid_of efi = partition_uuid O efi_partition_device
  efi_uuid_of bios = pure []

  -- `writeFstab`
  unfoldable pub write_fstab : Bytes → Layout → Exec O.State (Unit {0})
  unfolding efi_uuid_of
  write_fstab root l = do
    root_uuid ← partition_uuid O (root_partition_device l)
    boot_uuid ← partition_uuid O (boot_partition_device l)
    efi_uuid ← efi_uuid_of l
    execute ← wrapping (codes "parse fstab template") (lift (parse template))
    rendered ← wrapping (codes "render fstab template") (
        lift
          (execute (record { root_uuid = root_uuid; boot_uuid = boot_uuid; efi_uuid = efi_uuid })))
    let path = root ++ codes "/etc/fstab"
    write_managed_file O path rendered 0o644
    log_info O (codes "wrote " ++ path)
