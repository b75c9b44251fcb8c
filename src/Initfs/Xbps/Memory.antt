-- ===== src/Initfs/Xbps/Memory.antt =====
-- A server and a terminal for the host in memory: it has the tarball and its list, and the user
-- agrees to everything.
use void_init.Base.{ℕ, List, ◌++◌, map, false, Bytes, codes, ok, equal, if◌then◌else◌}
use void_init.Os.Memory.{memory, Files, entries_in}
use void_init.Initfs.Xbps.Download.{Remote, Visit, sha256sums_url}

abbrev pub sums : Bytes
sums = codes "00  other\naa  tarball\n"

abbrev pub tarball : Bytes
tarball = codes "binary"

-- The files below a directory, in the order of the table.
unfoldable pub visits_in : Bytes → Files → List Visit
unfolding entries_in
visits_in dir files =
    map
      (λ e. record {
        path = dir ++ codes "/" ++ e.name;
        name = e.name;
        is_dir = false;
        failure = ok tt;
      })
      (entries_in dir files)

abbrev pub remote : Remote memory
remote = record {
  Transport = ℕ;
  default_transport = 0;
  with_header_timeout = λ t _. t;
  get = λ client url h. (
    ok (record {
      status_code = 200;
      status = codes "200 OK";
      body = if equal url sha256sums_url then sums else tarball;
      read_error = ok tt;
    }),
    h,
  );
  ask = λ question h. h;
  read_line = λ h. (ok (codes "y\n"), h);
  create_temp = λ pattern h. (ok (codes "/tmp/tarball"), h);
  write_temp = λ path content h. (ok tt, h);
  close_temp = λ path h. (ok tt, h);
  walk_dir = λ path h. visits_in path h.files;
  sha256 = λ content. codes "aa";
}
