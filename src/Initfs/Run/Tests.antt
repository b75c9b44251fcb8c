-- ===== src/Initfs/Run/Tests.antt =====
-- The build of an EFI image on the host in memory.
use void_init.Base.{ℕ, err, text, Error, inl, arith, ◌≡◌, ◌+◌, true, [], Bytes, codes, Result, ok}
use void_init.Os.{Os}
use void_init.Os.Memory.{Host, memory}
use void_init.Initfs.Cleanup.Laws.{last_first}
use void_init.Initfs.Flags.{Config}
use void_init.Initfs.Flags.Parse.{defaults}
use void_init.Initfs.Fstab.{FstabTemplateData}
use void_init.Initfs.Nbd.{Clock}
use void_init.Initfs.Nbd.Memory.{clock}
use void_init.Initfs.Run.{steps, fresh, run}
use void_init.Initfs.Run.Laws.{Kept, run-Undone}
use void_init.Initfs.Run.Prepared.{run-unprepared}
use void_init.Initfs.Xbps.Download.{Remote}
use void_init.Initfs.Xbps.Memory.{remote}

abbrev parse : Bytes → Result (FstabTemplateData → Result Bytes)
parse template = ok (λ values. ok values.root_uuid)

abbrev host : Host
host = record {
  files = [];
  path = codes "/bin";
  commands = [];
  logged = [];
  time = 0;
  handles = [];
  owners = [];
}

abbrev config : Config
config = record defaults { wants_efi = true; output = codes "vm.qcow2"; assume_yes = true }

run-Undone_example :
    (run memory clock remote [] parse config host ≡ (
      let (r, w) = steps memory clock remote [] parse config (fresh host) in
      (r, last_first w.fns w.host)))
    × Kept memory clock remote [] parse (steps memory clock remote [] parse config (fresh host))
run-Undone_example = run-Undone memory clock remote [] parse config host

-- The same host, as another user.
abbrev unprivileged : Os
unprivileged = record memory { geteuid = λ h. 1000 }

abbrev slow : Clock unprivileged
slow = record { now = Host.time; sleep = λ d h. record h { time = h.time + d } }

abbrev nothing : Remote unprivileged
nothing = record {
  Transport = ℕ;
  default_transport = 0;
  with_header_timeout = λ t _. t;
  get = λ client url h. (err (text []), h);
  ask = λ question h. h;
  read_line = λ h. (err (text []), h);
  create_temp = λ pattern h. (err (text []), h);
  write_temp = λ path content h. (ok tt, h);
  close_temp = λ path h. (ok tt, h);
  walk_dir = λ path h. [];
  sha256 = λ content. content;
}

run-unprepared_example :
    (e : Error) × (run unprivileged slow nothing [] parse config host ≡ (err e, host))
run-unprepared_example =
    run-unprepared unprivileged slow nothing [] parse config host
      (inl (λ e. absurd (omega (arith, e))))
