-- ===== src/Init/Fsutil.antt =====
-- cmd/void-init/fsutil.go: managed files. A file that void-init writes holds a managed part, the
-- marker, and a section for the user that every rewrite keeps.
pub mod Laws
pub mod Owners
mod Tests
use void_init.Base.{
  ℕ, [], ◌∷◌, ◌++◌, Bytes, codes, Result, ok, err, Exec, in_context, is_not_exist, wrapping, ◌>>=◌,
  ◌>>◌, if◌then◌else◌,
}
use void_init.Os.{Os, log_info}
use void_init.Managed.{header, user_section, user_config_marker, with_single_trailing_newline}

module _ (O : Os) where
  -- The user section of the file that is there; a missing file has an empty one.
  unfoldable pub read_user_section : Bytes → Exec O.State Bytes
  read_user_section path s = elim (O.read_file path s) [
    | ok existing ↦ (ok (user_section user_config_marker existing), s)
    | err e ↦ (if is_not_exist e then ok [] else err (in_context (codes "read " ++ path) e), s)
  ]

  unfoldable pub write_managed_file : Bytes → Bytes → ℕ → Exec O.State (Unit {0})
  unfolding read_user_section
  write_managed_file path rendered perm = do
    user ← read_user_section path
    let text = with_single_trailing_newline (header user_config_marker rendered ++ user)
    wrapping (codes "write " ++ path) (O.write_file path text perm)
    wrapping (codes "chmod " ++ path) (O.chmod path perm)
    log_info O (codes "wrote " ++ path)
