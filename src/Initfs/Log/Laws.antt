-- ===== src/Initfs/Log/Laws.antt =====
-- cmd/void-initfs/log.go: what its calls leave alone.
use void_init.Base.{◌≡◌, [], ◌++◌, Bytes, codes}
use void_init.Vlog.Disk.{Disk, DiskLaws}
use void_init.Vlog.Disk.Handles.{HandleLaws}
use void_init.Vlog.Rotate.History.{concat}
use void_init.Vlog.Logger.{new}
use void_init.Vlog.Logger.Calls.{Messages, log_each, printed_lines, new-log_each, log_each-unfiled}
use void_init.Initfs.Log.{logger}

module _ {D : Disk} {L : DiskLaws D} (H : HandleLaws L) where
  -- Any number of calls of the logger of void-initfs print their lines to the standard error, in the
  -- order of the calls, and change no file at all.
  pub log_each-stderr :
      (messages : Messages) (s : D.State)
      → (let (l, a) = logger D s in
          let t = (log_each D l messages a).1 in
          (H.printed t ≡ H.printed s ++ concat (printed_lines D l messages s))
          × ((q : Bytes) → L.content t q ≡ L.content s q))
  unfolding logger new
  log_each-stderr messages s = (
    (new-log_each H (codes "void-initfs") [] messages s).0,
    λ q. log_each-unfiled H (codes "void-initfs") messages s q,
  )
