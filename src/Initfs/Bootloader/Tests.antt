-- ===== src/Initfs/Bootloader/Tests.antt =====
-- An image whose /etc/default/grub has one of the settings commented out, on the host in memory.
use void_init.Base.{◌≡◌, refl, ◌%◌, some, [], ◌∷◌, All, Bytes, codes, ok, equal, wrapping, ◌>>=◌}
use void_init.Os.{FileInfo}
use void_init.Os.Files.Changes.{Puts}
use void_init.Os.Memory.{Host, memory, find, put}
use void_init.Os.Memory.Laws.{memory-FileLaws}
use void_init.Text.FilePath.{clean, join_path}
use void_init.Text.Parts.{split, join}
use void_init.Text.Search.{has_prefix}
use void_init.Text.Trim.{trim_right}
use void_init.Managed.{with_single_trailing_newline}
use void_init.Initfs.Grub.{grub_fastboot_settings, assigned_key, fastboot_lines}
use void_init.Initfs.Grub.Settings.{other_lines}
use void_init.Initfs.Grub.Laws.{Holds}
use void_init.Initfs.Util.{write_file}
use void_init.Initfs.Util.Copies.{stored_entry}
use void_init.Initfs.Bootloader.{grub_path, set_grub_fastboot}
use void_init.Initfs.Bootloader.Laws.{set_grub_fastboot-Fast}

abbrev root : Bytes
root = codes "/r"

abbrev host : Host
host = record {
  files =
      (
        codes "/r/etc/default/grub",
        record { content = codes "#GRUB_TIMEOUT=5\nGRUB_DISTRIBUTOR=Void\n"; mode = 0o600 },
      )
      ∷ [];
  path = [];
  commands = [];
  logged = [];
  time = 0;
  handles = [];
  owners = [];
}

fast : Host
unfolding set_grub_fastboot fastboot_lines assigned_key write_file with_single_trailing_newline
    trim_right codes equal find put wrapping ◌>>=◌ join_path clean split join has_prefix
fast = (set_grub_fastboot memory root host).1

text :
    find (codes "/r/etc/default/grub") fast.files
    ≡ some (record {
      content =
          codes
            "GRUB_TIMEOUT=0\nGRUB_DISTRIBUTOR=Void\n\nGRUB_TIMEOUT_STYLE=hidden\nGRUB_RECORDFAIL_TIMEOUT=0\n";
      mode = 0o600;
    })
unfolding fast
text = refl

set_grub_fastboot-Fast_example :
    (info : FileInfo) × (old new : Bytes) × (memory.stat (grub_path root) host ≡ ok info)
    × (memory.read_file (grub_path root) host ≡ ok old)
    × Puts memory-FileLaws (stored_entry (grub_path root) new (info.mode % 0o1000) ∷ []) host fast
    × All (λ g. Holds g (split new b'\n')) grub_fastboot_settings
    × (other_lines (split new b'\n') ≡ other_lines (split old b'\n'))
unfolding fast
set_grub_fastboot-Fast_example = set_grub_fastboot-Fast memory-FileLaws root host refl
