-- ===== src/Initfs/Shutdown.antt =====
-- cmd/void-initfs/shutdown.go: the aliases for reboot and poweroff.
use void_init.Base.{[], ◌∷◌, ◌++◌, Bytes, codes, Exec, ◌>>◌}
use void_init.Os.{Os, log_info}
use void_init.Text.FilePath.{join_path}
use void_init.Initfs.Util.{write_file}

-- `rebootScriptTemplate` and `poweroffScriptTemplate`, templates/etc/bash/bashrc.d/reboot.sh and
-- poweroff.sh
abbrev pub reboot_script_template : Bytes
reboot_script_template = codes "alias reboot='shutdown -r now && exit'\n"

abbrev pub poweroff_script_template : Bytes
poweroff_script_template = codes "alias poweroff='shutdown -h now && exit'\n"

-- `configureShutdownAliases`
unfoldable pub configure_shutdown_aliases : (O : Os) → Bytes → Exec O.State (Unit {0})
configure_shutdown_aliases O root = do
  let dir = join_path (root ∷ codes "etc" ∷ codes "bash" ∷ codes "bashrc.d" ∷ [])
  O.mkdir_all dir 0o755
  let reboot_script = join_path (dir ∷ codes "reboot.sh" ∷ [])
  write_file O reboot_script reboot_script_template 0o644
  log_info O (codes "wrote " ++ reboot_script)
  let poweroff_script = join_path (dir ∷ codes "poweroff.sh" ∷ [])
  write_file O poweroff_script poweroff_script_template 0o644
  log_info O (codes "wrote " ++ poweroff_script)
