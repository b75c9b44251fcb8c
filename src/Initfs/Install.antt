-- ===== src/Initfs/Install.antt =====
-- cmd/void-initfs/install.go and keys.go: the programs, the boot script, the keys and the service
-- that a build puts into an image.
pub mod Laws
mod Tests
use void_init.Base.{
  List, [], ◌∷◌, ◌++◌, Bytes, codes, ok, err, Exec, pure, query, for_each, wrapping, ◌>>=◌, ◌>>◌,
  if◌then◌else◌,
}
use void_init.Os.{Os, DirEntry, log_info}
use void_init.Text.FilePath.{join_path}
use void_init.Initfs.Xbps.Tools.{local_keys_dir}
use void_init.Initfs.Util.{user_config_marker, copy_file, write_managed_file}

-- `rcLocal`
abbrev pub rc_local : Bytes
rc_local = codes "#!/bin/sh\n/usr/local/bin/void-init\n\n" ++ user_config_marker

abbrev pub programs : List Bytes
programs = codes "void-init" ∷ codes "void-initfs" ∷ []

-- Where a program comes from, and where it goes.
abbrev pub program_at : Bytes → Bytes → Bytes
program_at dir binary = dir ++ codes "/" ++ binary

abbrev pub binaries_dir : Bytes → Bytes
binaries_dir root = join_path (root ∷ codes "usr" ∷ codes "local" ∷ codes "bin" ∷ [])

abbrev pub rc_local_path : Bytes → Bytes
rc_local_path root = join_path (root ∷ codes "etc" ∷ codes "rc.local" ∷ [])

abbrev pub keys_dir : Bytes → Bytes
keys_dir root = join_path (root ∷ codes "var" ∷ codes "db" ∷ codes "xbps" ∷ codes "keys" ∷ [])

abbrev pub key_at : Bytes → DirEntry → Bytes
key_at dir entry = join_path (dir ∷ entry.name ∷ [])

module _ (O : Os) where
  install_binary : Bytes → Bytes → Bytes → Exec O.State (Unit {0})
  install_binary binary_path dst binary =
      copy_file O (program_at binary_path binary) (program_at dst binary) 0o755

  -- `installBinaries`
  unfoldable pub install_binaries : Bytes → Bytes → Exec O.State (Unit {0})
  unfolding install_binary
  install_binaries root binary_path = do
    let dst = binaries_dir root
    log_info O (codes "installing void-init and void-initfs binaries to " ++ dst)
    for_each (install_binary binary_path dst) programs
    log_info O (codes "writing " ++ rc_local_path root)
    write_managed_file O (rc_local_path root) rc_local 0o755

  link_sshd : Bytes → Bytes → Exec O.State (Unit {0})
  link_sshd root link = do
    log_info O (codes "enabling sshd in " ++ root)
    wrapping (codes "enable sshd") (O.symlink (codes "/etc/sv/sshd") link)

  -- `enableSSHService`
  unfoldable pub enable_ssh_service : Bytes → Exec O.State (Unit {0})
  unfolding link_sshd
  enable_ssh_service root s =
      let link = join_path (
        root
        ∷ codes "etc"
        ∷ codes "runit"
        ∷ codes "runsvdir"
        ∷ codes "default"
        ∷ codes "sshd"
        ∷ []) in
      elim (O.lstat link s) [
        | ok _ ↦ log_info O (codes "sshd already enabled in " ++ root) s
        | err _ ↦ link_sshd root link s
      ]

  copy_key : Bytes → DirEntry → Exec O.State (Unit {0})
  copy_key dir entry =
      if entry.is_dir
      then pure tt
      else copy_file O (key_at local_keys_dir entry) (key_at dir entry) 0o644

  -- `installRepoKeys`
  unfoldable pub install_repo_keys : Bytes → Exec O.State (Unit {0})
  unfolding copy_key
  install_repo_keys root = do
    entries ←
        wrapping
          (codes "read " ++ local_keys_dir ++ codes " (expected ensureXbps to have populated it)")
          (query (O.read_dir local_keys_dir))
    let dir = keys_dir root
    wrapping (codes "create " ++ dir) (O.mkdir_all dir 0o755)
    for_each (copy_key dir) entries
