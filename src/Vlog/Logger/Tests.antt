-- ===== src/Vlog/Logger/Tests.antt =====
-- The log in memory, and the theorems on its rotation at concrete files.
use void_init.Base.{
  ℕ, suc, ◌<◌, ◌≤◌, ◌≡◌, ◌≢◌, refl, none, some, [], ◌∷◌, length, arith, Bytes, codes, ◌>>=◌, equal,
}
use void_init.Os.Memory.{Host, find, put, delete}
use void_init.Text.Decimal.{decimal}
use void_init.Vlog.Disk.Memory.{memory_disk, memory_disk-DiskLaws, content}
use void_init.Vlog.Rotate.{
  RotatingWriter, max_log_size, max_log_backups, backup, rotate_log_file, make_room, append, write,
}
use void_init.Vlog.Rotate.Shift.{segment, rotate_log_file-segment}
use void_init.Vlog.Rotate.Write.{Tracks, Wrote, write-Wrote}
use void_init.Vlog.Rotate.History.{Writes, done, wrote, Writes-bounded}

abbrev path : Bytes
path = codes "/var/log/v.log"

abbrev before : Host
before = record {
  files =
      (path, record { content = codes "new\n"; mode = 0o644 })
      ∷ (backup path 1, record { content = codes "old\n"; mode = 0o644 })
      ∷ (backup path 5, record { content = codes "oldest\n"; mode = 0o644 })
      ∷ [];
  path = [];
  commands = [];
  logged = [];
  time = 0;
  handles = path ∷ [];
  owners = [];
}

after : Host
unfolding rotate_log_file backup decimal codes equal find put delete ◌>>=◌
after = (rotate_log_file memory_disk path before).1

-- The segment that was the oldest is gone, and the third place stays empty.
rotated :
    (content after (segment path 1) ≡ some (codes "new\n"))
    × (content after (segment path 2) ≡ some (codes "old\n"))
    × (content after (segment path 5) ≡ none)
unfolding after
rotated = (refl, refl, refl)

rotate_log_file-segment_example :
    ((k : ℕ)
      → k < max_log_backups
      → content after (segment path (suc k)) ≡ content before (segment path k))
    × (content after path ≡ none)
    × ((q : Bytes)
        → ((k : ℕ) → k ≤ max_log_backups → q ≢ segment path k)
        → content after q ≡ content before q)
unfolding after
rotate_log_file-segment_example = rotate_log_file-segment memory_disk-DiskLaws path before refl

abbrev writer : RotatingWriter memory_disk
writer = record { path = path; file = path; size = 4 }

abbrev x : Bytes
x = codes "line\n"

write_after : Host
unfolding write make_room append after
write_after = (write memory_disk writer x before).2

write-Wrote_example :
    ◌≡◌ {A = ℕ} 5 5
    × Wrote memory_disk-DiskLaws writer
        (codes "new\n")
        x
        before
        (record writer { size = 9 })
        write_after
unfolding write_after
write-Wrote_example =
    write-Wrote memory_disk-DiskLaws writer (codes "new\n") x before
      (record { file_open = refl; holds = refl; size_is = refl }) refl

writes : Writes memory_disk-DiskLaws writer before (x ∷ []) (record writer { size = 9 }) write_after
unfolding write_after
writes = wrote 5 x refl done

tracked : Tracks memory_disk-DiskLaws writer (codes "new\n") before
unfolding find equal codes
tracked = record { file_open = refl; holds = refl; size_is = refl }

short : length (codes "new\n") ≤ max_log_size
unfolding codes
short = omega arith

x_short : length x ≤ max_log_size
unfolding codes
x_short = omega arith

Writes-bounded_example :
    (d : Bytes) × Tracks memory_disk-DiskLaws (record writer { size = 9 }) d write_after
    × (length d ≤ max_log_size)
Writes-bounded_example =
    Writes-bounded memory_disk-DiskLaws writer (record writer { size = 9 }) (codes "new\n") (x ∷ [])
      before write_after tracked short (x_short, tt) writes
