-- ===== src/Initfs/Xbps/Ensured.antt =====
-- cmd/void-initfs/xbps.go: what holds once the tools and the keys are ensured.
use void_init.Base.{◌≡◌, ◌⊎◌, Bool, true, false, All, Bytes, ok, pure}
use void_init.Os.{Os, log_info}
use void_init.Initfs.Xbps.Tools.{xbps_tools, have_cached_keys}
use void_init.Initfs.Xbps.Download.{
  Remote, confirm, removing_tree, download_and_verify_static_xbps, sha256sums_url,
}
use void_init.Initfs.Xbps.Download.Laws.{Downloaded, Trusted}
use void_init.Initfs.Xbps.{download_question, install_extracted}

module _ {O : Os} (R : Remote O) where
  -- The tool is on the path.
  abbrev pub Found : O.State → Bytes → Type 0
  Found s tool = (path : Bytes) × (O.look_path tool s ≡ ok path)

  -- The user has said yes, on the command line or, in the state `s`, to the question.
  abbrev pub Agreed : Bool → (s t : O.State) → Type 0
  Agreed assume_yes s t =
      ((assume_yes ≡ true) × (t ≡ s)) ⊎ (confirm O R download_question s ≡ (true, t))

  -- From `s` on: a line in the log, the user's consent, a download whose digest is on the list, the
  -- installation of what is needed, all tools on the path, and, in `t`, the extracted files removed.
  abbrev pub Refreshed : (assume_yes need_binaries need_keys : Bool) (s t : O.State) → Type 0
  Refreshed assume_yes need_binaries need_keys s t =
      (a b c u v : O.State) × (message sums tmp dir : Bytes) × (log_info O message s ≡ (ok tt, a))
      × Agreed assume_yes a b
      × (download_and_verify_static_xbps O R b ≡ (ok dir, u))
      × Downloaded O R sha256sums_url (λ _. pure tt) sums
      × Trusted O R sums tmp dir c
      × (u ≡ (O.remove tmp c).1)
      × (install_extracted O R need_binaries need_keys dir u ≡ (ok tt, v))
      × All (Found v) xbps_tools
      × (t ≡ removing_tree O R dir v)

  -- The path has the directory of the tools, and nothing else had to be done.
  abbrev pub Idle : Bool → (s t : O.State) → Type 0
  Idle update s t =
      (t ≡ s) × (update ≡ false) × All (Found s) xbps_tools × (have_cached_keys O s ≡ true)
