-- ===== src/Initfs/Util.antt =====
-- cmd/void-initfs/util.go: the files that void-initfs writes into an image.
pub mod Laws
pub mod Copies
pub mod Reruns
mod Tests
use void_init.Base.{
  ℕ, ◌+◌, none, some, length, take, drop, [], ◌∷◌, ◌++◌, Bytes, codes, Result, ok, err, Exec,
  in_context, is_not_exist, query, wrapping, ◌>>=◌, ◌>>◌, if◌then◌else◌,
}
use void_init.Os.{Os}
use void_init.Text.Trim.{trim_right}
use void_init.Text.Search.{index}

-- `userConfigMarker`
abbrev pub user_config_marker : Bytes
user_config_marker = codes "#void-init: user config starts here"

-- `header` of `writeManagedFile`
abbrev pub header : Bytes → Bytes
header rendered = elim (index rendered user_config_marker) [
  | none ↦ rendered
  | some i ↦ take (i + length user_config_marker) rendered
]

-- `userSection` of a file that is there.
abbrev pub user_section : Bytes → Bytes
user_section existing = elim (index existing user_config_marker) [
  | none ↦ []
  | some i ↦ drop (i + length user_config_marker) existing
]

module _ (O : Os) where
  -- The user section of the file that is there; a missing file has an empty one.
  unfoldable pub read_user_section : Bytes → Exec O.State Bytes
  read_user_section path s = elim (O.read_file path s) [
    | ok existing ↦ (ok (user_section existing), s)
    | err e ↦ (if is_not_exist e then ok [] else err (in_context (codes "read " ++ path) e), s)
  ]

  unfoldable pub write_file : Bytes → Bytes → ℕ → Exec O.State (Unit {0})
  write_file path content perm = do
    let trimmed = trim_right content ++ b'\n' ∷ []
    wrapping (codes "write " ++ path) (O.write_file path trimmed perm)
    wrapping (codes "chmod " ++ path) (O.chmod path perm)

  unfoldable pub write_managed_file : Bytes → Bytes → ℕ → Exec O.State (Unit {0})
  unfolding read_user_section write_file
  write_managed_file path rendered perm = do
    user ← read_user_section path
    write_file path (header rendered ++ user) perm

  -- Closing the two files at the end has no effect that the program looks at.
  unfoldable pub copy_file : Bytes → Bytes → ℕ → Exec O.State (Unit {0})
  copy_file src dst perm = do
    wrapping (codes "open " ++ src) (query (O.open_read src))
    wrapping (codes "create " ++ dst) (O.open_truncate dst perm)
    wrapping (codes "copy " ++ src ++ codes " to " ++ dst) (O.copy src dst)
    wrapping (codes "chmod " ++ dst) (O.chmod dst perm)
