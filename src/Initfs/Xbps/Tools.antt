-- ===== src/Initfs/Xbps/Tools.antt =====
-- cmd/void-initfs/xbps.go: what the host has of XBPS, and where.
use void_init.Base.{
  Bool, false, not, ◌&&◌, List, [], ◌∷◌, ◌++◌, any, Bytes, codes, equal, ok, err, if◌then◌else◌,
}
use void_init.Os.{Os, DirEntry}
use void_init.Text.Parts.{split}
use void_init.Text.Search.{has_suffix}
use void_init.Text.Trim.{is_empty}

abbrev pub xbps_tools : List Bytes
xbps_tools = codes "xbps-install" ∷ codes "xbps-reconfigure" ∷ []

abbrev pub local_bin_dir : Bytes
local_bin_dir = codes "/usr/local/bin"

abbrev pub local_keys_dir : Bytes
local_keys_dir = codes "/usr/local/share/void-initfs/keys"

-- `filepath.SplitList`
unfoldable pub split_list : Bytes → List Bytes
split_list path = if is_empty path then [] else split path b':'

abbrev pub is_plist : DirEntry → Bool
is_plist entry = not entry.is_dir && has_suffix entry.name (codes ".plist")

module _ (O : Os) where
  -- `extendPath`
  unfoldable pub extend_path : Bytes → O.State → O.State
  extend_path dir s =
      let path = O.getenv (codes "PATH") s in
      if not (any (λ part. equal part dir) (split_list path))
      then s
      else O.setenv (codes "PATH") (path ++ codes ":" ++ dir) s

  -- The tools of the list that are not found on PATH.
  unfoldable pub missing_of : List Bytes → O.State → List Bytes
  missing_of [] s = []
  missing_of (tool ∷ tools) s =
      let rest = missing_of tools s in
      elim (O.look_path tool s) [ ok _ ↦ rest | err _ ↦ tool ∷ rest ]

  -- `missingTools`
  unfoldable pub missing_tools : O.State → List Bytes
  missing_tools = missing_of xbps_tools

  -- `haveCachedKeys`
  unfoldable pub have_cached_keys : O.State → Bool
  have_cached_keys s = elim (O.read_dir local_keys_dir s) [
    | err _ ↦ false
    | ok entries ↦ any is_plist entries
  ]
