-- ===== src/Initfs/Main.antt =====
-- cmd/void-initfs/main.go: `main`, on the arguments behind the program's name.
pub mod Laws
use void_init.Base.{ℕ, List, Bytes, codes, message, Result, ok, err}
use void_init.Os.{Os, log_info, log_error}
use void_init.Initfs.Flags.Parse.{Outcome, exited, returned, parse_flags}
use void_init.Initfs.Flags.{Config}
use void_init.Initfs.Fstab.{FstabTemplateData}
use void_init.Initfs.Nbd.{Clock}
use void_init.Initfs.Run.{run}
use void_init.Initfs.Xbps.Download.{Remote}

module _ (O : Os) (C : Clock O) (R : Remote O) (template : Bytes)
    (parse : Bytes → Result (FstabTemplateData → Result Bytes)) where
  -- The end of the process: `fatal` exits with 1.
  finish : Result (Unit {0}) × O.State → ℕ × O.State
  finish (ok _, s) = (0, (log_info O (codes "finished successfully") s).1)
  finish (err e, s) = (1, (log_error O (message e) s).1)

  run_outcome : Outcome → O.State → ℕ × O.State
  unfolding finish
  run_outcome (exited status) s = (status, s)
  run_outcome (returned (err e)) s = finish (err e, s)
  run_outcome (returned (ok c)) s = finish (run O C R template parse c s)

  -- `main`
  unfoldable pub main : List Bytes → O.State → ℕ × O.State
  unfolding run_outcome
  main args s = run_outcome (parse_flags O args s) s
