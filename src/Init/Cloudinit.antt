-- ===== src/Init/Cloudinit.antt =====
-- cmd/void-init/cloudinit.go: the search for a file on the devices that cloud-init's data comes on.
-- A mount is of type iso9660 and read-only.
pub mod Laws
mod Tests
use void_init.Base.{
  Option, none, some, List, [], ◌∷◌, ◌++◌, Bytes, codes, text, message, in_context, Result, ok, err,
  Exec, pure, raise, query, wrapping, ◌>>=◌, ◌>>◌, if◌then◌else◌,
}
use void_init.Os.{Os, log_info, log_warn}
use void_init.Text.FilePath.{join_path}
use void_init.Text.Parts.{shown}
use void_init.Text.Trim.{is_empty}

-- `cloudInitSources`
abbrev cloud_init_sources : List Bytes
cloud_init_sources = codes "/dev/sr*" ∷ []

module _ (O : Os) where
  -- What is there of the file, once its device is mounted: `none` where it is missing.
  file_on : Bytes → O.State → Result (Option Bytes)
  file_on path s = elim (O.stat path s) [
    | err _ ↦ ok none
    | ok _ ↦ elim (O.read_file path s) [ ok content ↦ ok (some content) | err e ↦ err e ]
  ]

  -- `readFileFromDevice`: the device is unmounted again whatever the file gives.
  unfoldable pub read_file_from_device : Bytes → Bytes → Bytes → Exec O.State (Option Bytes)
  unfolding file_on
  read_file_from_device device mountpoint name s =
      let (mounted, t) = O.mount device mountpoint s in
      elim mounted [
        | err e ↦ (err (in_context (codes "mount " ++ device) e), t)
        | ok _ ↦ (file_on (join_path (mountpoint ∷ name ∷ [])) t, O.unmount mountpoint t)
      ]

  -- The loop over the devices.
  unfoldable pub scan : Bytes → Bytes → List Bytes → List Bytes → Exec O.State Bytes
  scan mountpoint name all [] s =
      (err (text (codes "no cloud-init " ++ name ++ codes " found on " ++ shown all)), s)
  scan mountpoint name all (device ∷ devices) s =
      let (read, t) = read_file_from_device device mountpoint name s in
      let next = λ (u : O.State). scan mountpoint name all devices u in
      elim read [
        | err e ↦ next (log_warn O (device ++ codes ": " ++ message e) t).1
        | ok none ↦ next t
        | ok (some content) ↦
            (ok content, (log_info O (codes "found " ++ name ++ codes " on " ++ device) t).1)
      ]

  -- The devices that the patterns match, in the order of the patterns.
  glob_all : List Bytes → List Bytes → Exec O.State (List Bytes)
  glob_all [] devices = pure devices
  glob_all (pattern ∷ patterns) devices = do
    matches ← wrapping (codes "glob " ++ pattern) (query (O.glob pattern))
    glob_all patterns (devices ++ matches)

  -- `defer os.RemoveAll(mountpoint)`, whose error is dropped.
  abbrev removing : Bytes → Exec O.State Bytes → Exec O.State Bytes
  removing mountpoint m s = let (r, t) = m s in (r, (O.remove_all mountpoint t).1)

  scan_devices : Bytes → List Bytes → Exec O.State Bytes
  unfolding scan
  scan_devices name devices = do
    log_info O (codes "scanning " ++ shown devices ++ codes " for " ++ name)
    mountpoint ← wrapping (codes "create mountpoint") (O.mkdir_temp (codes "void-init-cloud-init"))
    removing mountpoint (scan mountpoint name devices devices)

  scan_if_any : Bytes → List Bytes → Exec O.State Bytes
  unfolding scan_devices
  scan_if_any name devices =
      if is_empty devices
      then raise (text (codes "no cloud-init source devices found"))
      else scan_devices name devices

  -- `findCloudInitFile`
  unfoldable pub find_cloud_init_file : Bytes → Exec O.State Bytes
  unfolding glob_all scan_if_any
  find_cloud_init_file name = do devices ← glob_all cloud_init_sources []; scan_if_any name devices

  -- `FindUserData`
  unfoldable pub find_user_data : Exec O.State Bytes
  find_user_data = find_cloud_init_file (codes "user-data")

  -- `FindNetworkConfig`
  unfoldable pub find_network_config : Exec O.State Bytes
  find_network_config = find_cloud_init_file (codes "network-config")
