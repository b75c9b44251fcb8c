-- ===== src/Initfs/Log/Tests.antt =====
-- The log of void-initfs, on the disk in memory.
use void_init.Base.{◌≡◌, refl, [], ◌∷◌, codes}
use void_init.Os.Memory.{Host}
use void_init.Text.Decimal.{decimal}
use void_init.Vlog.Level.{info, level_string}
use void_init.Vlog.Disk.Memory.{memory_disk}
use void_init.Vlog.Disk.Memory.Handles.{printed}
use void_init.Vlog.Logger.{line, logf, new}
use void_init.Vlog.Logger.Calls.{log_each}
use void_init.Initfs.Log.{logger}

abbrev host : Host
host = record {
  files = [];
  path = [];
  commands = [];
  logged = [];
  time = 0;
  handles = [];
  owners = [];
}

after : Host
unfolding logger log_each logf
after =
    (log_each memory_disk (logger memory_disk host).0 ((info, codes "a") ∷ (info, codes "b") ∷ [])
      (logger memory_disk host).1).1

text :
    printed after.logged
    ≡ codes
        "Jan  1 00:00:00 vm void-initfs[1]: INFO: a\nJan  1 00:00:00 vm void-initfs[1]: INFO: b\n"
unfolding after printed line level_string decimal codes new
text = refl
