-- ===== src/Initfs/Install/Tests.antt =====
-- An image that gets its programs and keys, on the host in memory.
use void_init.Base.{
  ◌≡◌, refl, some, List, [], ◌∷◌, ◌++◌, filter, false, Bytes, codes, equal, equal-ne, if◌then◌else◌,
  for_each, wrapping, ◌>>=◌,
}
use void_init.Os.{DirEntry}
use void_init.Os.Files.Changes.{Puts}
use void_init.Os.Memory.{Host, memory, find, put, entries_in}
use void_init.Os.Memory.Laws.{memory-FileLaws}
use void_init.Os.Memory.Copies.{memory-CopyLaws}
use void_init.Text.FilePath.{clean, join_path}
use void_init.Text.Parts.{split, join}
use void_init.Text.Search.{has_prefix, index}
use void_init.Text.Trim.{trim_right}
use void_init.Managed.{with_single_trailing_newline}
use void_init.Initfs.Util.{copy_file, read_user_section, write_file, write_managed_file}
use void_init.Initfs.Util.Copies.{managed_entry}
use void_init.Initfs.Install.{rc_local, rc_local_path, install_binaries, install_repo_keys}
use void_init.Initfs.Install.Laws.{program_entries, install_binaries-Puts, install_repo_keys-Puts}

abbrev old_script : Bytes
old_script = codes "#void-init: user config starts here\nmine\n"

abbrev keys : Bytes
keys = codes "/usr/local/share/void-initfs/keys"

abbrev host : Host
host = record {
  files =
      (codes "/b/void-init", record { content = codes "A"; mode = 0o700 })
      ∷ (codes "/b/void-initfs", record { content = codes "B"; mode = 0o755 })
      ∷ (codes "/r/etc/rc.local", record { content = old_script; mode = 0o644 })
      ∷ (keys ++ codes "/a.plist", record { content = codes "K"; mode = 0o600 })
      ∷ [];
  path = [];
  commands = [];
  logged = [];
  time = 0;
  handles = [];
  owners = [];
}

abbrev root : Bytes
root = codes "/r"

abbrev program : Bytes → Bytes
program name = if equal name (codes "void-init") then codes "A" else codes "B"

installed : Host
unfolding install_binaries copy_file write_managed_file read_user_section write_file
    with_single_trailing_newline trim_right index codes equal find put wrapping ◌>>=◌ for_each
    join_path clean split join has_prefix
installed = (install_binaries memory root (codes "/b") host).1

script :
    find (codes "/r/etc/rc.local") installed.files
    ≡ some (record {
      content =
          codes
            "#!/bin/sh\n/usr/local/bin/void-init\n\n#void-init: user config starts here\nmine\n";
      mode = 0o755;
    })
unfolding installed
script = refl

install_binaries-Puts_example :
    Puts memory-FileLaws
      (program_entries root program
        ++ managed_entry
            (rc_local_path root)
            rc_local
            0o755
            (some (record { content = old_script; mode = 0o644 }))
          ∷ [])
      host
      installed
unfolding installed
install_binaries-Puts_example =
    install_binaries-Puts memory-FileLaws memory-CopyLaws root (codes "/b") program host
      (
        ((0o700, refl), refl, (equal-ne _ _ refl, (equal-ne _ _ refl, tt))),
        (((0o755, refl), refl, (equal-ne _ _ refl, (equal-ne _ _ refl, tt))), tt),
      )
      refl (equal-ne _ _ refl, (equal-ne _ _ refl, tt)) refl

key : Host
unfolding install_repo_keys copy_file codes equal find put wrapping ◌>>=◌ for_each join_path clean
    split join has_prefix filter entries_in
key = (install_repo_keys memory root host).1

abbrev entries : List DirEntry
entries = record { name = codes "a.plist"; is_dir = false } ∷ []

install_repo_keys-Puts_example :
    Puts memory-FileLaws
      ((codes "/r/var/db/xbps/keys/a.plist", record { content = codes "K"; mode = 0o644 }) ∷ [])
      host
      key
unfolding key filter
install_repo_keys-Puts_example =
    install_repo_keys-Puts memory-FileLaws memory-CopyLaws root (λ e. codes "K") entries host refl
      (((0o600, refl), refl, (equal-ne _ _ refl, tt)), tt) refl
