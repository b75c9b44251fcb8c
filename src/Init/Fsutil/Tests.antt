-- ===== src/Init/Fsutil/Tests.antt =====
-- The theorems on managed files at a concrete rewrite of /etc/hosts.
use void_init.Base.{◌≡◌, refl, some, [], ◌∷◌, ◌++◌, Bytes, codes, equal, wrapping, ◌>>=◌}
use void_init.Os.Files.Store.{Frame}
use void_init.Os.Memory.{Host, find, put, memory}
use void_init.Os.Memory.Laws.{memory-FileLaws}
use void_init.Text.Search.{index}
use void_init.Text.Trim.{trim_right}
use void_init.Managed.{user_section, user_config_marker, managed_text, with_single_trailing_newline}
use void_init.Init.Fsutil.{read_user_section, write_managed_file}
use void_init.Init.Fsutil.Laws.{
  content_of, write_managed_file-file, write_managed_file-user_section,
}

abbrev path : Bytes
path = codes "/etc/hosts"

abbrev rendered : Bytes
rendered = codes "::1 vm\n#void-init: user config starts here\n"

abbrev existing : Bytes
existing = codes "old\n#void-init: user config starts here\nmine\n\n"

abbrev before : Host
before = record {
  files = (path, record { content = existing; mode = 0o600 }) ∷ [];
  path = [];
  commands = [];
  logged = [];
  time = 0;
  handles = [];
  owners = [];
}

after : Host
unfolding write_managed_file read_user_section with_single_trailing_newline trim_right index codes
    equal find put wrapping ◌>>=◌
after = (write_managed_file memory path rendered 0o644 before).1

written :
    find path after.files
    ≡ some (record {
      content = codes "::1 vm\n#void-init: user config starts here\nmine\n";
      mode = 0o644;
    })
unfolding after
written = refl

write_managed_file-file_example :
    (find path after.files
      ≡ some (record { content = managed_text user_config_marker rendered existing; mode = 0o644 }))
    × Frame memory-FileLaws path before after
unfolding after
write_managed_file-file_example =
    write_managed_file-file memory memory-FileLaws path rendered 0o644 before refl refl

write_managed_file-user_section_example :
    user_section user_config_marker (content_of (find path after.files))
    ≡ trim_right (user_section user_config_marker existing) ++ b'\n' ∷ []
unfolding after
write_managed_file-user_section_example =
    write_managed_file-user_section memory memory-FileLaws path rendered 0o644 before {i = 7} refl
      refl refl
