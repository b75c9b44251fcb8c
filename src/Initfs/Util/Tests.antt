-- ===== src/Initfs/Util/Tests.antt =====
-- A file with a user section that is written twice, on the host in memory.
use void_init.Base.{◌≡◌, refl, some, [], ◌∷◌, ◌++◌, Bytes, codes, equal, for_each, wrapping, ◌>>=◌}
use void_init.Os.Memory.{Host, memory, find, put}
use void_init.Os.Memory.Laws.{memory-FileLaws}
use void_init.Text.Search.{index, has_prefix}
use void_init.Text.Trim.{trim_right}
use void_init.Managed.{with_single_trailing_newline}
use void_init.Initfs.Util.{user_config_marker, read_user_section, write_file, write_managed_file}
use void_init.Initfs.Util.Reruns.{Rendered, ended, rewrite_with, section_in, rewrites-user_section}

abbrev path : Bytes
path = codes "/r/etc/rc.local"

abbrev before : Host
before = record {
  files = (path, record { content = user_config_marker ++ codes "\nmine \n"; mode = 0o644 }) ∷ [];
  path = [];
  commands = [];
  logged = [];
  time = 0;
  handles = [];
  owners = [];
}

abbrev first : Rendered
first = (codes "a\n" ++ user_config_marker, 0o644)

abbrev second : Rendered
second = (codes "bb\n" ++ user_config_marker, 0o755)

after : Host
unfolding write_managed_file read_user_section write_file with_single_trailing_newline trim_right
    index has_prefix codes equal find put wrapping ◌>>=◌ for_each
after = (for_each (rewrite_with memory path) (first ∷ second ∷ []) before).1

text :
    find path after.files
    ≡ some
        (record { content = codes "bb\n#void-init: user config starts here\nmine\n"; mode = 0o755 })
unfolding after
text = refl

rewrites-user_section_example :
    section_in memory-FileLaws path refl after ≡ ended (section_in memory-FileLaws path refl before)
unfolding after
rewrites-user_section_example =
    rewrites-user_section memory-FileLaws path refl first (second ∷ []) before
      ((2, refl), ((3, refl), tt)) refl
