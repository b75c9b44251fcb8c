-- ===== src/Init/Cloudinit/Tests.antt =====
-- A search on a machine with one device, whose mounts stand where the host in memory keeps its log.
use void_init.Base.{◌≡◌, refl, ap, sym, [], ◌∷◌, drop, codes, ok}
use void_init.Os.{Os}
use void_init.Os.Memory.{Host, memory}
use void_init.Init.Cloudinit.{find_cloud_init_file}
use void_init.Init.Cloudinit.Laws.{MountLaws, find_cloud_init_file-mounted}

abbrev mounting : Os
mounting = record memory {
  log = λ l m h. h;
  glob = λ pattern h. ok (codes "/dev/sr0" ∷ []);
  mount = λ device place h. (ok tt, record h { logged = place ∷ h.logged });
  unmount = λ place h. record h { logged = drop 1 h.logged };
}

abbrev mounting-MountLaws : MountLaws mounting
mounting-MountLaws = record {
  mounted = Host.logged;
  mounted-mount = λ device place s e. ap (λ r. r.1.logged) (sym e);
  mounted-mount_failed = λ device place s e. absurd (cc);
  mounted-unmount = λ place others s e. ap (drop 1) e;
  mounted-log = λ l m s. refl;
  mounted-mkdir_temp = λ p s. refl;
  mounted-remove_all = λ p s. refl;
}

abbrev host : Host
host = record {
  files =
      (
        codes "/tmp/void-init-cloud-init/user-data",
        record { content = codes "#cloud-config\n"; mode = 0o644 },
      )
      ∷ [];
  path = [];
  commands = [];
  logged = codes "/mnt" ∷ [];
  time = 0;
  handles = [];
  owners = [];
}

find_cloud_init_file-mounted_example :
    (let found = (find_cloud_init_file mounting (codes "user-data") host).1 in found.logged)
    ≡ codes "/mnt" ∷ []
find_cloud_init_file-mounted_example =
    find_cloud_init_file-mounted mounting mounting-MountLaws (codes "user-data") host
