-- ===== src/Initfs/Xbps/Files.antt =====
-- cmd/void-initfs/xbps.go: the tools and the keys that an extracted tarball leaves on the host.
use void_init.Base.{
  ℕ, ◌≡◌, ◌≢◌, refl, ap, sym, ◌∙◌, subst, true, false, not, ◌&&◌, Option, none, some, List, [], ◌∷◌,
  ◌++◌, any, map, filter, All, All-intro, Bytes, codes, equal, equal_iff, arith, if◌then◌else◌,
  Result, ok, pure, lift, for_each, wrapping, ◌>>◌, Result, Option-cases, Bool-cases, inl, inr,
}
use void_init.Base.Effects.Laws.{
  bind-eq-ok, wrapping-eq-ok, for_each-filter, ok-injective, query-eq-ok, Result-cases,
}
use void_init.Os.{Os, DirEntry, log_info}
use void_init.Os.Files.{File, FileLaws}
use void_init.Os.Files.Copies.{CopyLaws, cleared}
use void_init.Os.Files.Changes.{
  Puts, Has, overlaid, Puts-behind, Puts-before, log-Unchanged, Source, Sources-Has, PutsOne,
  entry_of, for_each-Puts,
}
use void_init.Text.FilePath.{join_path}
use void_init.Initfs.Util.{copy_file}
use void_init.Initfs.Util.Copies.{copy_file-Puts}
use void_init.Initfs.Xbps.Tools.{xbps_tools, is_plist}
use void_init.Initfs.Xbps.Download.{Visit, Remote}
use void_init.Initfs.Xbps.{
  found_tools, path_of, install_tool, install_extracted_xbps, cache_key, install_extracted_keys,
}

-- The path of the last file of that name that the walk comes to.
unfoldable pub last_of : Bytes → List Visit → Option Bytes
last_of tool [] = none
last_of tool (v ∷ visits) = elim (last_of tool visits) [
  | some path ↦ some path
  | none ↦ (if not v.is_dir && equal v.name tool then some v.path else none)
]

abbrev path_or : Result Bytes → Option Bytes → Result Bytes
path_or r none = r
path_or r (some path) = ok path

module _ {O : Os} (R : Remote O) where
  path_of-found :
      (tool : Bytes) (found : List (Bytes × Bytes)) (v : Visit)
      → any (equal tool) xbps_tools ≡ true
      → path_of O R tool (
          if not v.is_dir && any (equal v.name) xbps_tools then (v.name, v.path) ∷ found else found)
        ≡ path_or
            (path_of O R tool found)
            (if not v.is_dir && equal v.name tool then some v.path else none)
  unfolding path_of
  path_of-found tool found v wanted = elim (Bool-cases (equal v.name tool)) [
    | inl same ↦
        let known : any (equal v.name) xbps_tools ≡ true =
          ap (λ n. any (equal n) xbps_tools) ((equal_iff v.name tool).0 same) ∙ wanted in
        rw (same, known) (ground arith)
    | inr other ↦ ground arith
  ]

  path_of-last_of :
      (tool : Bytes) (visits : List Visit) (found : List (Bytes × Bytes))
      {all : List (Bytes × Bytes)}
      → any (equal tool) xbps_tools ≡ true
      → found_tools O R found visits ≡ ok all
      → path_of O R tool all ≡ path_or (path_of O R tool found) (last_of tool visits)
  unfolding found_tools last_of
  path_of-last_of tool [] found wanted h = ap (path_of O R tool) (ok-injective (sym h))
  path_of-last_of tool (v ∷ visits) found wanted h = elim (Result-cases v.failure) [
    | inl (_, fine) ↦
        path_of-last_of tool visits _ wanted (rw fine at h)
        ∙ elim (Option-cases (last_of tool visits)) [
          | inl last ↦ rw last (path_of-found tool found v wanted)
          | inr (path, later) ↦ rw later refl
        ]
    | inr (e, broken) ↦ absurd (cc (rw broken at h))
  ]

abbrev tool_at : Bytes → Bytes → Bytes
tool_at dest tool = join_path (dest ∷ tool ∷ [])

module _ {O : Os} (L : FileLaws O) (K : CopyLaws L) (R : Remote O) where
  -- A step that makes a directory.
  made-Unchanged :
      (before path : Bytes) (perm : ℕ) (s : O.State) {x : Unit {0}} {t : O.State}
      → wrapping before (O.mkdir_all path perm) s ≡ (ok x, t)
      → (q : Bytes) → L.file t q ≡ L.file s q
  made-Unchanged before path perm s h q =
      ap (λ r. L.file r.1 q) (sym (wrapping-eq-ok before (O.mkdir_all path perm) s h))
      ∙ K.mkdir_all-frame path perm s q

  copied_and_logged :
      (src dst : Bytes) (perm : ℕ) (m : Bytes) (s t : O.State) {f : File}
      → src ≢ dst
      → L.file s src ≡ some f
      → (copy_file O src dst perm >> log_info O m) s ≡ (ok tt, t)
      → Puts L ((dst, record { content = f.content; mode = perm }) ∷ []) s t
  copied_and_logged src dst perm m s t ne there h =
      let (_, a, copied, logged) = bind-eq-ok (copy_file O src dst perm) _ s h in
      Puts-before L _ s a t (copy_file-Puts L K src dst perm s a ne there copied)
        (log-Unchanged L m a logged)

  install_tool-PutsOne :
      (source content : Bytes → Bytes) (dest : Bytes) (found : List (Bytes × Bytes)) (tool : Bytes)
      → path_of O R tool found ≡ ok (source tool)
      → PutsOne L source (tool_at dest) content 0o755 (install_tool O R dest found) tool
  unfolding install_tool
  install_tool-PutsOne source content dest found tool known s t k ne there h =
      let (src, a, picked, rest) = bind-eq-ok (lift (path_of O R tool found)) _ s h in
      let e : src ≡ source tool = ok-injective (sym (ap (λ r. r.0) picked) ∙ known) in
      let same : s ≡ a = ap (λ r. r.1) picked in
      let copy = λ (p : Bytes).
        copy_file O p (tool_at dest tool) 0o755
        >> log_info O (codes "installed " ++ tool_at dest tool) in
      let run : copy (source tool) s ≡ (ok tt, t) = (λ i. copy (sym e i) (same i)) ∙ rest in
      copied_and_logged (source tool) (tool_at dest tool) 0o755 _ s t ne there run

  -- If the last file of each tool's name that the walk of the extracted tarball comes to is a file
  -- that the copies do not overwrite and that is not the logger's, an installation that succeeds
  -- puts a copy of it below the target directory under the tool's name, with mode 0755; no other file
  -- changes, but for the logger's.
  pub install_extracted_xbps-Puts :
      (extract_dir dest : Bytes) (source content : Bytes → Bytes) (s : O.State) {t : O.State}
      → All
          (λ tool.
            last_of tool (R.walk_dir extract_dir (O.mkdir_all dest 0o755 s).1) ≡ some (source tool))
          xbps_tools
      → All (Source L source (tool_at dest) content xbps_tools (L.file s)) xbps_tools
      → install_extracted_xbps O R extract_dir dest s ≡ (ok tt, t)
      → Puts L (map (entry_of (tool_at dest) content 0o755) xbps_tools) s t
  unfolding install_extracted_xbps codes equal
  install_extracted_xbps-Puts extract_dir dest source content s {t} last sources h =
      let (_, a, made, h1) = bind-eq-ok _ _ s h in
      let (found, b, walked, copied) = bind-eq-ok _ _ a h1 in
      let (all, same) =
        query-eq-ok _ (λ s. found_tools O R [] (R.walk_dir extract_dir s)) a walked in
      let there : (O.mkdir_all dest 0o755 s).1 ≡ a =
        ap (λ r. r.1) (wrapping-eq-ok _ (O.mkdir_all dest 0o755) s made) in
      let quiet = λ (q : Bytes) (n : L.is_log q ≡ false).
        ap (λ u. L.file u q) (sym same) ∙ made-Unchanged _ dest 0o755 s made q in
      let one =
        λ (tool : Bytes) (wanted : any (equal tool) xbps_tools ≡ true)
            (e : last_of tool (R.walk_dir extract_dir (O.mkdir_all dest 0o755 s).1)
              ≡ some (source tool)).
          install_tool-PutsOne source content dest found tool (
            path_of-last_of R tool (R.walk_dir extract_dir a) [] wanted all
            ∙ ap (path_or (path_of O R tool []))
                (ap (λ u. last_of tool (R.walk_dir extract_dir u)) (sym there) ∙ e)) in
      Puts-behind L (map (entry_of (tool_at dest) content 0o755) xbps_tools) (L.file s) b t quiet (
        for_each-Puts L source (tool_at dest) content 0o755 (install_tool O R dest found) xbps_tools
          b (one _ refl last.0, (one _ refl last.1.0, tt))
          (Sources-Has L source (tool_at dest) content xbps_tools (L.file s) b quiet sources)
          copied)

  -- The directory of an extracted tarball that holds its keys.
  abbrev pub bundled : Bytes → Bytes
  bundled extract_dir =
      join_path (extract_dir ∷ codes "var" ∷ codes "db" ∷ codes "xbps" ∷ codes "keys" ∷ [])

  abbrev pub key_in : Bytes → DirEntry → Bytes
  key_in dir entry = join_path (dir ∷ entry.name ∷ [])

  unless_other :
      (keys_dir dest : Bytes) (entry : DirEntry) (s : O.State)
      → cache_key O R keys_dir dest entry s
        ≡ (if is_plist entry
              then copy_file O (key_in keys_dir entry) (key_in dest entry) 0o644
                >> log_info O (codes "cached repository key " ++ key_in dest entry)
              else pure tt)
            s
  unfolding cache_key
  unless_other keys_dir dest entry s = ground arith

  -- If the `.plist` files of the extracted tarball do not lie below the target directory, none of
  -- the copies overwrites one and none is the logger's, an installation that succeeds leaves in the
  -- target directory a copy of each of them, with mode 0644, and nothing else of what was there; no
  -- other file changes, but for the logger's.
  pub install_extracted_keys-Has :
      (extract_dir dest : Bytes) (content : DirEntry → Bytes) (entries : List DirEntry)
      (s : O.State) {t : O.State}
      → O.read_dir (bundled extract_dir) s ≡ ok entries
      → All
          (Source L
            (key_in (bundled extract_dir))
            (key_in dest)
            content
            (filter is_plist entries)
            (cleared dest (L.file s)))
          (filter is_plist entries)
      → install_extracted_keys O R extract_dir dest s ≡ (ok tt, t)
      → Has L
          (overlaid
            (map (entry_of (key_in dest) content 0o644) (filter is_plist entries))
            (cleared dest (L.file s)))
          t
  unfolding install_extracted_keys
  install_extracted_keys-Has extract_dir dest content entries s {t} listed sources h =
      let (found, a, read, h1) = bind-eq-ok _ _ s h in
      let (_, b, removed, h2) = bind-eq-ok _ _ a h1 in
      let (_, c, made, copied) = bind-eq-ok _ _ b h2 in
      let (now, same) = query-eq-ok _ (O.read_dir (bundled extract_dir)) s read in
      let from = key_in (bundled extract_dir) in
      let step = λ (e : DirEntry).
        copy_file O (from e) (key_in dest e) 0o644
        >> log_info O (codes "cached repository key " ++ key_in dest e) in
      let base = λ (q : Bytes) (n : L.is_log q ≡ false).
        made-Unchanged _ dest 0o755 b made q
        ∙ K.remove_all-ok dest a q (wrapping-eq-ok _ (O.remove_all dest) a removed)
        ∙ ap (λ u. cleared dest (L.file u) q) (sym same) in
      let keys = filter is_plist entries in
      let loop = cache_key O R (bundled extract_dir) dest in
      let run =
        sym (for_each-filter is_plist loop step (unless_other (bundled extract_dir) dest) entries c)
        ∙ subst (λ es. for_each loop es c ≡ (ok tt, t)) (ok-injective (sym now ∙ listed)) copied in
      Puts-behind L (map (entry_of (key_in dest) content 0o644) keys) (cleared dest (L.file s)) c t
        base
        (for_each-Puts L from (key_in dest) content 0o644 step keys c
          (All-intro {P = PutsOne L from (key_in dest) content 0o644 step} keys
            (λ e u v k ne there h.
              copied_and_logged (from e) (key_in dest e) 0o644 _ u v ne there h))
          (Sources-Has L from (key_in dest) content keys (cleared dest (L.file s)) c base sources)
          run)
