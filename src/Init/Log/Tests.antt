-- ===== src/Init/Log/Tests.antt =====
-- The log of void-init, on the disk in memory.
use void_init.Base.{◌≡◌, refl, some, [], ◌∷◌, ◌++◌, Bytes, codes, equal}
use void_init.Os.Memory.{Host, find, put}
use void_init.Text.Decimal.{decimal}
use void_init.Vlog.Level.{info, warn, level_string}
use void_init.Vlog.Disk.Memory.{memory_disk, memory_disk-DiskLaws, content}
use void_init.Vlog.Disk.Memory.Handles.{memory_disk-HandleLaws, printed}
use void_init.Vlog.Rotate.{RotatingWriter, max_log_backups, write, make_room, append}
use void_init.Vlog.Rotate.Reach.{Foreign}
use void_init.Vlog.Rotate.History.{concat, history, IsSuffix}
use void_init.Vlog.Logger.{line, logf}
use void_init.Vlog.Logger.Calls.{Messages, log_each, printed_lines, new-log_each}
use void_init.Vlog.Logger.History.{logging_to, log_each-history}
use void_init.Init.Log.{log_path, logger}

abbrev host : Host
host = record {
  files = (log_path, record { content = codes "old\n"; mode = 0o644 }) ∷ [];
  path = [];
  commands = [];
  logged = [];
  time = 0;
  handles = log_path ∷ [];
  owners = [];
}

abbrev messages : Messages
messages = (info, codes "a") ∷ (warn, codes "b") ∷ []

after : Host
unfolding logger log_each
after = (log_each memory_disk (logger memory_disk host).0 messages (logger memory_disk host).1).1

new-log_each_example :
    (printed after.logged
      ≡ printed (logger memory_disk host).1.logged
        ++ concat (
            printed_lines memory_disk
              (logger memory_disk host).0
              messages
              (logger memory_disk host).1))
    × ((q : Bytes) → Foreign memory_disk-HandleLaws log_path q → content after q ≡ content host q)
unfolding after logger printed printed_lines
new-log_each_example =
    new-log_each memory_disk-HandleLaws (codes "void-init") log_path messages host

abbrev writer : RotatingWriter memory_disk
writer = record { path = log_path; file = log_path; size = 4 }

-- The active file at the end.
text :
    content (log_each memory_disk (logging_to (codes "void-init") writer) messages host).1 log_path
    ≡ some (
        codes
          "old\nJan  1 00:00:00 vm void-init[1]: INFO: a\nJan  1 00:00:00 vm void-init[1]: WARN: b\n")
unfolding log_each logf line level_string decimal codes write make_room append find put equal
text = refl

log_each-history_example :
    IsSuffix
      (history memory_disk-DiskLaws log_path max_log_backups
        (log_each memory_disk (logging_to (codes "void-init") writer) messages host).1)
      (history memory_disk-DiskLaws log_path max_log_backups host
        ++ concat (printed_lines memory_disk (logging_to (codes "void-init") writer) messages host))
unfolding line level_string decimal codes write make_room append find put equal
log_each-history_example =
    log_each-history memory_disk-HandleLaws (codes "void-init") writer (codes "old\n") messages host
      (record { file_open = refl; holds = refl; size_is = refl }) (refl, (refl, tt))
