-- ===== src/Init/Apply/Keys/Tests.antt =====
-- The keys of one account, on the host in memory.
use void_init.Base.{◌≡◌, refl, some, [], ◌∷◌, Bytes, List, codes, equal, equal-ne, wrapping, ◌>>=◌}
use void_init.Os.Memory.{Host, memory, find, put}
use void_init.Os.Memory.Laws.{memory-FileLaws}
use void_init.Os.Memory.Copies.{memory-CopyLaws}
use void_init.Os.Memory.Owners.{memory-OwnerLaws}
use void_init.Os.{Account}
use void_init.Text.Atoi.{atoi}
use void_init.Text.FilePath.{clean, join_path}
use void_init.Text.Parts.{split, join}
use void_init.Text.Search.{has_prefix, index}
use void_init.Text.Trim.{trim_right}
use void_init.Managed.{with_single_trailing_newline}
use void_init.Init.Fsutil.{read_user_section, write_managed_file}
use void_init.Init.Apply.{install_keys, apply_ssh_authorized_keys}
use void_init.Init.Apply.Keys.{Owned, apply_ssh_authorized_keys-Owned}

abbrev host : Host
host = record {
  files =
      (
        codes "/root/.ssh/authorized_keys",
        record { content = codes "#void-init: user config starts here\nC\n"; mode = 0o644 },
      )
      ∷ [];
  path = [];
  commands = [];
  logged = [];
  time = 0;
  handles = [];
  owners = [];
}

abbrev keys : List Bytes
keys = codes "A" ∷ codes "B" ∷ []

abbrev account : Account
account = record { uid = codes "0"; gid = codes "0"; home_dir = codes "/root" }

after : Host
unfolding apply_ssh_authorized_keys install_keys atoi write_managed_file read_user_section
    with_single_trailing_newline trim_right index codes equal find put wrapping ◌>>=◌ join_path
    clean split join has_prefix
after = (apply_ssh_authorized_keys memory (codes "root") keys host).1

text :
    find (codes "/root/.ssh/authorized_keys") after.files
    ≡ some (record {
      content = codes "A\nB\n\n#void-init: user config starts here\nC\n";
      mode = 0o600;
    })
unfolding after
text = refl

apply_ssh_authorized_keys-Owned_example :
    Owned memory-FileLaws memory-OwnerLaws
      (codes "/root")
      keys
      0
      0
      (find (codes "/root/.ssh/authorized_keys") host.files)
      after
unfolding after atoi
apply_ssh_authorized_keys-Owned_example =
    apply_ssh_authorized_keys-Owned memory-FileLaws memory-OwnerLaws memory-CopyLaws (codes "root")
      keys host account refl refl refl refl refl (equal-ne _ _ refl) refl
