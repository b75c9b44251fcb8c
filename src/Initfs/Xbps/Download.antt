-- ===== src/Initfs/Xbps/Download.antt =====
-- cmd/void-initfs/xbps.go: the question to the user, and the download of the static tools. The
-- network, the terminal, temporary files and SHA-256 are the fields of `Remote`.
pub mod Laws
use void_init.Base.{
  ℕ, Bool, true, false, not, ◌&&◌, ◌||◌, Option, none, some, List, [], ◌∷◌, ◌++◌, any, Bytes, codes,
  equal, ◌==◌, leb, Error, text, in_context, Result, ok, err, Exec, pure, raise, lift, query, when,
  for_each, wrapping, ◌>>=◌, ◌>>◌, if◌then◌else◌, map, ◌+◌, ◌*◌, ◌^◌,
}
use void_init.Os.{Os, DirEntry, log_info}
use void_init.Text.FilePath.{join_path}
use void_init.Text.Parts.{shown, split, join}
use void_init.Text.Search.{has_suffix}
use void_init.Text.Space.{trim_space}
use void_init.Text.Trim.{is_empty}
use void_init.Initfs.Exec.{command}
use void_init.Initfs.Util.{copy_file}
use void_init.Initfs.Xbps.Checksum.{static_xbps_filename, verify_checksum}

-- The fields of `http.Response` that the program reads. `read_error` is what reading the body ends
-- with, where that is no end of file.
pub record Response : Type 0 where
  pub status_code : ℕ
  pub status : Bytes
  pub body : Bytes
  pub read_error : Result (Unit {0})

-- One call of the function that `filepath.WalkDir` is given.
pub record Visit : Type 0 where
  pub path : Bytes
  pub name : Bytes
  pub is_dir : Bool
  pub failure : Result (Unit {0})

-- The fields of `http.Client` that the program sets. A `time.Duration` counts nanoseconds.
pub record HttpClient (Transport : Type 0) : Type 0 where
  pub timeout : ℕ
  pub transport : Transport

pub record Remote (O : Os) : Type 1 where
  -- `http.Transport`, the clone of the default one, and the change of its `ResponseHeaderTimeout`.
  pub Transport : Type 0
  pub default_transport : Transport
  pub with_header_timeout : ℕ → Transport → Transport
  pub get : HttpClient Transport → Bytes → Exec O.State Response
  pub ask : Bytes → O.State → O.State
  pub read_line : Exec O.State Bytes
  pub create_temp : Bytes → Exec O.State Bytes
  pub write_temp : Bytes → Bytes → Exec O.State (Unit {0})
  pub close_temp : Bytes → Exec O.State (Unit {0})
  pub walk_dir : Bytes → O.State → List Visit
  -- The digest in lower-case hexadecimal digits.
  pub sha256 : Bytes → Bytes

abbrev pub static_xbps_url : Bytes
static_xbps_url = codes "https://repo-default.voidlinux.org/static/" ++ static_xbps_filename

abbrev pub sha256sums_url : Bytes
sha256sums_url = codes "https://repo-default.voidlinux.org/static/sha256sums.txt"

-- `strings.ToLower`, on ASCII. No other rune has `y`, `e` or `s` as its lower case.
lower : Bytes → Bytes
lower s = map (λ c. if leb b'A' c && leb c b'Z' then c + 32 else c) s

-- `time.Second` and `time.Minute`
abbrev second : ℕ
second = 10 ^ 9

abbrev minute : ℕ
minute = 60 * second

module _ (O : Os) (R : Remote O) where
  -- `newHTTPClient`
  unfoldable pub new_http_client : HttpClient R.Transport
  new_http_client = record {
    timeout = 15 * minute;
    transport = R.with_header_timeout (30 * second) R.default_transport;
  }

  -- `confirm`: a line that cannot be read is a no.
  unfoldable pub confirm : Bytes → O.State → Bool × O.State
  unfolding lower
  confirm question s =
      let (answer, t) =
        R.read_line (R.ask (codes "void-initfs: " ++ question ++ codes " [y/N] ") s) in
      (
        elim answer [
          | err _ ↦ false
          | ok line ↦
              (let word = lower (trim_space line) in
                equal word (codes "y") || equal word (codes "yes"))
        ],
        t,
      )

  -- `download`, whose writer is `write`: it gets all of the body at once.
  received : Bytes → (Bytes → Exec O.State (Unit {0})) → Response → Exec O.State (Unit {0})
  received url write response =
      if not (response.status_code == 200)
      then raise (text (codes "GET " ++ url ++ codes ": unexpected status " ++ response.status))
      else wrapping (codes "download " ++ url) do write response.body; lift response.read_error

  unfoldable pub download : Bytes → (Bytes → Exec O.State (Unit {0})) → Exec O.State Bytes
  unfolding received new_http_client
  download url write = do
    response ← wrapping (codes "GET " ++ url) (R.get new_http_client url)
    received url write response
    pure response.body

  -- `defer os.Remove(tmpPath)` and `defer os.RemoveAll(extractDir)`, whose errors are dropped.
  abbrev pub finally : {A : Type 0} → (O.State → O.State) → Exec O.State A → Exec O.State A
  finally cleanup m s = let (r, t) = m s in (r, cleanup t)

  removing_file : Bytes → O.State → O.State
  removing_file path s = (O.remove path s).1

  unfoldable pub removing_tree : Bytes → O.State → O.State
  removing_tree path s = (O.remove_all path s).1

  -- The download of the tarball; a failed one closes the file.
  download_tarball : Bytes → Exec O.State Bytes
  unfolding download
  download_tarball tmp s =
      let (r, t) = download static_xbps_url (R.write_temp tmp) s in
      elim r [ ok body ↦ (ok body, t) | err e ↦ (err e, (R.close_temp tmp t).1) ]

  -- `tar`
  abbrev pub untarred : Bytes → Bytes → Exec O.State (Unit {0})
  untarred tmp dir = command O (codes "tar" ∷ codes "-xJf" ∷ tmp ∷ codes "-C" ∷ dir ∷ [])

  -- `tar`; a failed one removes the directory.
  unfoldable extract : Bytes → Bytes → Exec O.State Bytes
  unfolding removing_tree
  extract tmp dir s =
      let (r, t) = untarred tmp dir s in
      elim r [ ok _ ↦ (ok dir, t) | err e ↦ (err e, removing_tree dir t) ]

  -- `downloadAndVerifyStaticXbps` with its temporary file.
  verified_extract : Bytes → Bytes → Exec O.State Bytes
  unfolding download_tarball extract
  verified_extract sums tmp = do
    log_info O (codes "downloading " ++ static_xbps_url)
    body ← download_tarball tmp
    wrapping (codes "close " ++ tmp) (R.close_temp tmp)
    lift (verify_checksum sums (R.sha256 body))
    log_info O (
        codes "verified "
        ++ static_xbps_filename
        ++ codes " (sha256 "
        ++ R.sha256 body
        ++ codes ") against sha256sums.txt")
    dir ← wrapping (codes "create extract dir") (O.mkdir_temp (codes "void-initfs-xbps-extract"))
    extract tmp dir

  -- `downloadAndVerifyStaticXbps`
  unfoldable pub download_and_verify_static_xbps : Exec O.State Bytes
  unfolding verified_extract removing_file
  download_and_verify_static_xbps = do
    wrapping (codes "tar not found on PATH (needed to extract the static xbps tarball)")
        (query (O.look_path (codes "tar")))
    log_info O (codes "downloading " ++ sha256sums_url)
    sums ← wrapping (codes "download sha256sums.txt") (download sha256sums_url (λ _. pure tt))
    tmp ← wrapping (codes "create temp file") (R.create_temp (codes "void-initfs-xbps-*.tar.xz"))
    finally (removing_file tmp) (verified_extract sums tmp)
