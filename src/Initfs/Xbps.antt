-- ===== src/Initfs/Xbps.antt =====
-- cmd/void-initfs/xbps.go: the tools of XBPS and the keys of its repositories, on the host that
-- builds.
pub mod Checksum
pub mod Tools
pub mod Download
pub mod Files
pub mod Ensured
pub mod Memory
mod Tests
use void_init.Base.{
  ℕ, Bool, true, false, not, ◌&&◌, ◌||◌, Option, none, some, List, [], ◌∷◌, ◌++◌, any, Bytes, codes,
  equal, ◌==◌, leb, Error, text, in_context, Result, ok, err, Exec, pure, raise, lift, query, when,
  for_each, wrapping, ◌>>=◌, ◌>>◌, if◌then◌else◌, map, ◌+◌,
}
use void_init.Os.{Os, DirEntry, log_info}
use void_init.Text.FilePath.{join_path}
use void_init.Text.Parts.{shown, split, join}
use void_init.Text.Search.{has_suffix}
use void_init.Text.Space.{trim_space}
use void_init.Text.Trim.{is_empty}
use void_init.Initfs.Exec.{command}
use void_init.Initfs.Util.{copy_file}
use void_init.Initfs.Xbps.Checksum.{static_xbps_filename, verify_checksum}
use void_init.Initfs.Xbps.Tools.{
  xbps_tools, local_bin_dir, local_keys_dir, is_plist, extend_path, missing_tools, have_cached_keys,
}
use void_init.Initfs.Xbps.Download.{
  Visit, Remote, static_xbps_url, confirm, finally, removing_tree, download_and_verify_static_xbps,
}

abbrev shown_bool : Bool → Bytes
shown_bool true = codes "true"
shown_bool false = codes "false"

abbrev pub download_question : Bytes
download_question =
    codes "download and verify Void's static xbps tools/keys from " ++ static_xbps_url ++ codes "?"

module _ (O : Os) (R : Remote O) where
  -- The function that `WalkDir` calls: `found` has the path of a name that was visited last first.
  found_tools : List (Bytes × Bytes) → List Visit → Result (List (Bytes × Bytes))
  found_tools found [] = ok found
  found_tools found (v ∷ visits) =
      let rest =
        found_tools
          (if not v.is_dir && any (equal v.name) xbps_tools
            then (v.name, v.path) ∷ found
            else found)
          visits in
      elim v.failure [ ok _ ↦ rest | err e ↦ err e ]

  path_of : Bytes → List (Bytes × Bytes) → Result Bytes
  path_of tool [] = err (text (tool ++ codes " not found in downloaded tarball"))
  path_of tool ((name, path) ∷ found) =
      let rest = path_of tool found in if equal name tool then ok path else rest

  install_tool : Bytes → List (Bytes × Bytes) → Bytes → Exec O.State (Unit {0})
  unfolding path_of
  install_tool dest found tool = do
    src ← lift (path_of tool found)
    let dst = join_path (dest ∷ tool ∷ [])
    copy_file O src dst 0o755
    log_info O (codes "installed " ++ dst)

  -- `installExtractedXbps`
  unfoldable pub install_extracted_xbps : Bytes → Bytes → Exec O.State (Unit {0})
  unfolding found_tools install_tool
  install_extracted_xbps extract_dir dest = do
    wrapping (codes "create " ++ dest) (O.mkdir_all dest 0o755)
    found ←
        wrapping (codes "walk " ++ extract_dir)
          (query (λ s. found_tools [] (R.walk_dir extract_dir s)))
    for_each (install_tool dest found) xbps_tools

  cache_key : Bytes → Bytes → DirEntry → Exec O.State (Unit {0})
  cache_key keys_dir dest entry = if not (is_plist entry) then pure tt else do
    let dst = join_path (dest ∷ entry.name ∷ [])
    copy_file O (join_path (keys_dir ∷ entry.name ∷ [])) dst 0o644
    log_info O (codes "cached repository key " ++ dst)

  -- `installExtractedKeys`
  unfoldable pub install_extracted_keys : Bytes → Bytes → Exec O.State (Unit {0})
  unfolding cache_key
  install_extracted_keys extract_dir dest = do
    let keys_dir =
        join_path (extract_dir ∷ codes "var" ∷ codes "db" ∷ codes "xbps" ∷ codes "keys" ∷ [])
    entries ← wrapping (codes "read " ++ keys_dir) (query (O.read_dir keys_dir))
    wrapping (codes "remove " ++ dest) (O.remove_all dest)
    wrapping (codes "create " ++ dest) (O.mkdir_all dest 0o755)
    for_each (cache_key keys_dir dest) entries

  -- The user's answer; `-y` is one.
  permitted : Bool → Exec O.State (Unit {0})
  permitted true s = (ok tt, s)
  permitted false s =
      let (agreed, t) = confirm O R download_question s in
      (if agreed then ok tt else err (text (codes "xbps tools/keys required but not available")), t)

  -- The last loop of `ensureXbps`.
  still_missing : List Bytes → O.State → Result (Unit {0})
  still_missing [] s = ok tt
  still_missing (tool ∷ tools) s =
      let rest = still_missing tools s in
      elim (O.look_path tool s) [
        | ok _ ↦ rest
        | err _ ↦ err (text (tool ++ codes " still not found on PATH after download"))
      ]

  pub install_extracted : Bool → Bool → Bytes → Exec O.State (Unit {0})
  unfolding still_missing
  install_extracted need_binaries need_keys dir = do
    when need_binaries (install_extracted_xbps dir local_bin_dir)
    when need_keys (install_extracted_keys dir local_keys_dir)
    query (still_missing xbps_tools)

  refresh :
      (update assume_yes need_binaries need_keys : Bool) → List Bytes → Exec O.State (Unit {0})
  unfolding permitted install_extracted removing_tree
  refresh update assume_yes need_binaries need_keys missing = do
    log_info O (
        codes "refreshing xbps tools/keys from "
        ++ static_xbps_url
        ++ codes " (missing tools: "
        ++ shown missing
        ++ codes ", update: "
        ++ shown_bool update
        ++ codes ")")
    permitted assume_yes
    dir ← wrapping (codes "download static xbps") (download_and_verify_static_xbps O R)
    finally O R (removing_tree O R dir) (install_extracted need_binaries need_keys dir)

  -- `ensureXbps`
  unfoldable pub ensure_xbps : Bool → Bool → Exec O.State (Unit {0})
  unfolding refresh
  ensure_xbps update assume_yes s =
      let t = extend_path O local_bin_dir s in
      let missing = missing_tools O t in
      let need_binaries = update || not (is_empty missing) in
      let need_keys = update || not (have_cached_keys O t) in
      if not need_binaries && not need_keys
      then (ok tt, t)
      else refresh update assume_yes need_binaries need_keys missing t
