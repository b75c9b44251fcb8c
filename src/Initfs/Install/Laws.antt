-- ===== src/Initfs/Install/Laws.antt =====
-- cmd/void-initfs/install.go and keys.go: the files that a build has put into its image.
use void_init.Base.{
  ◌≡◌, ◌≢◌, refl, ap, sym, ◌∙◌, false, not, List, [], ◌∷◌, ◌++◌, subst, map, filter, All, All-intro,
  Bytes, ok, for_each, arith, if◌then◌else◌, pure,
}
use void_init.Base.Effects.Laws.{
  bind-eq-ok, wrapping-eq-ok, for_each-filter, ok-injective, query-eq-ok,
}
use void_init.Os.{Os, DirEntry}
use void_init.Os.Files.{FileLaws}
use void_init.Os.Files.Copies.{CopyLaws}
use void_init.Os.Files.Changes.{
  Entries, Puts, Puts-append, Puts-kept, Puts-behind, Puts-before, log-Unchanged, Source,
  Sources-Has, PutsOne, entry_of, for_each-Puts,
}
use void_init.Initfs.Util.{copy_file}
use void_init.Initfs.Util.Copies.{copy_file-Puts, managed_entry, write_managed_file-Puts}
use void_init.Initfs.Xbps.Tools.{local_keys_dir}
use void_init.Initfs.Install.{
  rc_local, programs, program_at, binaries_dir, rc_local_path, keys_dir, key_at, install_binaries,
  install_binary, copy_key, install_repo_keys,
}

-- The programs of an image, with their bytes.
abbrev pub program_entries : Bytes → (Bytes → Bytes) → Entries
program_entries root content =
    map (entry_of (program_at (binaries_dir root)) content 0o755) programs

module _ {O : Os} (L : FileLaws O) (K : CopyLaws L) where
  module _ (root binary_path : Bytes) (content : Bytes → Bytes) where
    abbrev from : Bytes → Bytes
    from = program_at binary_path

    abbrev to : Bytes → Bytes
    to = program_at (binaries_dir root)

    -- If the two programs are files that the copies do not overwrite and that are not the logger's,
    -- and the boot script of the image is neither one of the copies nor the logger's, an installation
    -- that succeeds puts the two programs into the image, with mode 0755, and behind them the managed
    -- text of the boot script over the script that was there, with mode 0755 too; no other file
    -- changes, but for the logger's.
    pub install_binaries-Puts :
        (s : O.State) {t : O.State}
        → All (Source L from to content programs (L.file s)) programs
        → L.is_log (rc_local_path root) ≡ false
        → All (λ e. rc_local_path root ≢ e.0) (program_entries root content)
        → install_binaries O root binary_path s ≡ (ok tt, t)
        → Puts L
            ((program_entries root content)
              ++ managed_entry (rc_local_path root) rc_local 0o755 (L.file s (rc_local_path root))
                ∷ [])
            s
            t
    unfolding install_binaries install_binary
    install_binaries-Puts s {t} sources not_log apart h =
        let (_, a, logged, h1) = bind-eq-ok _ _ s h in
        let (_, b, copied, h2) = bind-eq-ok _ _ a h1 in
        let (_, c, logged', written) = bind-eq-ok _ _ b h2 in
        let rc = rc_local_path root in
        let quiet = log-Unchanged L _ s logged in
        let ready = Sources-Has L from to content programs (L.file s) a quiet sources in
        let each =
          for_each-Puts L from to content 0o755 (install_binary O binary_path (binaries_dir root))
            programs a
            (All-intro
              {P = PutsOne L from to content 0o755
                (install_binary O binary_path (binaries_dir root))}
              programs
              (λ p u v k ne there h. copy_file-Puts L K (from p) (to p) 0o755 u v ne there h))
            ready copied in
        let put =
          Puts-before L (program_entries root content) s b c
            (Puts-behind L (program_entries root content) (L.file s) a b quiet each)
            (log-Unchanged L _ b logged') in
        let old = Puts-kept L (program_entries root content) s c rc put not_log apart refl in
        Puts-append L (program_entries root content)
          (managed_entry rc rc_local 0o755 (L.file s rc) ∷ []) s c t put
          (subst (λ f. Puts L (managed_entry rc rc_local 0o755 f ∷ []) c t) old
            (write_managed_file-Puts L rc rc_local 0o755 c t not_log written))

  unless_dir :
      (dir : Bytes) (entry : DirEntry) (s : O.State)
      → copy_key O dir entry s
        ≡ (if not entry.is_dir
              then copy_file O (key_at local_keys_dir entry) (key_at dir entry) 0o644
              else pure tt)
            s
  unfolding copy_key
  unless_dir dir entry s = ground arith

  -- The entries of the key directory that are copied.
  abbrev pub key_files : List DirEntry → List DirEntry
  key_files entries = filter (λ e. not e.is_dir) entries

  -- If the entries of the key cache that are no directories are files that the copies do not
  -- overwrite and that are not the logger's, an installation that succeeds puts a copy of each of
  -- them below the key directory of the image, with mode 0644; no other file changes, but for the
  -- logger's.
  pub install_repo_keys-Puts :
      (root : Bytes) (content : DirEntry → Bytes) (entries : List DirEntry) (s : O.State)
      {t : O.State}
      → O.read_dir local_keys_dir s ≡ ok entries
      → All
          (Source L
            (key_at local_keys_dir)
            (key_at (keys_dir root))
            content
            (key_files entries)
            (L.file s))
          (key_files entries)
      → install_repo_keys O root s ≡ (ok tt, t)
      → Puts L (map (entry_of (key_at (keys_dir root)) content 0o644) (key_files entries)) s t
  unfolding install_repo_keys
  install_repo_keys-Puts root content entries s {t} listed sources h =
      let (found, a, read, h1) = bind-eq-ok _ _ s h in
      let (_, b, made, copied) = bind-eq-ok _ _ a h1 in
      let (now, same) = query-eq-ok _ (O.read_dir local_keys_dir) s read in
      let dir = keys_dir root in
      let from = key_at local_keys_dir in
      let to = key_at dir in
      let quiet = λ (q : Bytes) (n : L.is_log q ≡ false).
        ap (λ r. L.file r.1 q) (sym (wrapping-eq-ok _ (O.mkdir_all dir 0o755) a made))
        ∙ K.mkdir_all-frame dir 0o755 a q
        ∙ ap (λ r. L.file r q) (sym same) in
      let keys = key_files entries in
      let each =
        subst (λ es. for_each (copy_key O dir) es b ≡ (ok tt, t)) (ok-injective (sym now ∙ listed))
          copied in
      let filtered =
        sym (
          for_each-filter (λ e. not e.is_dir) (copy_key O dir)
            (λ e. copy_file O (from e) (to e) 0o644) (unless_dir dir) entries b)
        ∙ each in
      let ready = Sources-Has L from to content keys (L.file s) b quiet sources in
      Puts-behind L (map (entry_of to content 0o644) keys) (L.file s) b t quiet (
        for_each-Puts L from to content 0o644 (λ e. copy_file O (from e) (to e) 0o644) keys b
          (All-intro {P = PutsOne L from to content 0o644 (λ e. copy_file O (from e) (to e) 0o644)}
            keys (λ e u v k ne there h. copy_file-Puts L K (from e) (to e) 0o644 u v ne there h))
          ready filtered)
