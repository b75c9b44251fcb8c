-- ===== src/Initfs/Main/Laws.antt =====
-- The status that the process exits with.
use void_init.Base.{◌≡◌, ◌↔◌, refl, List, Bytes, Result, ok, err, arith}
use void_init.Os.{Os}
use void_init.Initfs.Flags.Parse.{Outcome, exited, returned, parse_flags}
use void_init.Initfs.Fstab.{FstabTemplateData}
use void_init.Initfs.Main.{finish, run_outcome, main}
use void_init.Initfs.Nbd.{Clock}
use void_init.Initfs.Run.{run}
use void_init.Initfs.Xbps.Download.{Remote}

module _ (O : Os) (C : Clock O) (R : Remote O) (template : Bytes)
    (parse : Bytes → Result (FstabTemplateData → Result Bytes)) where
  -- A process that has nothing to complain about: it was asked for help, or its run succeeded.
  abbrev pub Succeeds : Outcome → O.State → Type 0
  Succeeds (exited status) s = status ≡ 0
  Succeeds (returned (err e)) s = ⊥
  Succeeds (returned (ok c)) s = (run O C R template parse c s).0 ≡ ok tt

  finish-status :
      (p : Result (Unit {0}) × O.State) → ((finish O C R template parse p).0 ≡ 0) ↔ (p.0 ≡ ok tt)
  unfolding finish
  finish-status (ok _, s) = (λ _. refl, λ _. refl)
  finish-status (err e, s) = (λ h. absurd (omega (arith, h)), λ h. absurd (cc))

  -- The process exits with 0 exactly if the flag package ends it so, for a question for help, or the
  -- run of the accepted configuration succeeds.
  pub main-status :
      (args : List Bytes) (s : O.State)
      → ((main O C R template parse args s).0 ≡ 0) ↔ Succeeds (parse_flags O args s) s
  unfolding main run_outcome finish
  main-status args s = status (parse_flags O args s)
    where
      status : (o : Outcome) → ((run_outcome O C R template parse o s).0 ≡ 0) ↔ Succeeds o s
      status (exited n) = (λ h. h, λ h. h)
      status (returned (err e)) = (λ h. absurd (omega (arith, h)), λ h. absurd h)
      status (returned (ok c)) = finish-status (run O C R template parse c s)
