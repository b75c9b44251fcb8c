-- ===== src/Initfs/Util/Copies.antt =====
-- cmd/void-initfs/util.go: what a copy and a managed write leave on the host.
use void_init.Base.{
  ℕ, ◌≡◌, ◌≢◌, ap, sym, ◌∙◌, false, Option, some, [], ◌∷◌, ◌++◌, Bytes, codes, ok, ◌>>=◌, continue,
  query,
}
use void_init.Base.Effects.Laws.{bind-eq-ok, wrapping-eq-ok}
use void_init.Os.{Os, log_info}
use void_init.Os.Files.{File, FileLaws}
use void_init.Os.Files.Store.{write_chmod-file}
use void_init.Os.Files.Copies.{CopyLaws}
use void_init.Os.Files.Changes.{Puts, Puts-one}
use void_init.Managed.{managed_text, with_single_trailing_newline}
use void_init.Init.Fsutil.Laws.{content_of, write_managed_file-file}
use void_init.Initfs.Util.{user_config_marker, copy_file, write_file, write_managed_file}
use void_init.Initfs.Util.Laws.{write_managed_file-logged}

-- A text that `writeFile` was given, as an entry.
abbrev pub stored_entry : Bytes → Bytes → ℕ → Bytes × File
stored_entry path content perm =
    (path, record { content = with_single_trailing_newline content; mode = perm })

-- The managed text over an old file, as an entry.
abbrev pub managed_entry : Bytes → Bytes → ℕ → Option File → Bytes × File
managed_entry path rendered perm old = (
  path,
  record { content = managed_text user_config_marker rendered (content_of old); mode = perm },
)

module _ {O : Os} (L : FileLaws O) where
  -- A copy that succeeds, from a file to another path, leaves there the bytes of the source and
  -- exactly the wanted mode, whatever was there before; no other file changes.
  pub copy_file-file :
      (K : CopyLaws L) (src dst : Bytes) (perm : ℕ) (s : O.State) {t : O.State} {f : File}
      → src ≢ dst
      → L.file s src ≡ some f
      → copy_file O src dst perm s ≡ (ok tt, t)
      → (L.file t dst ≡ some (record { content = f.content; mode = perm }))
        × ((q : Bytes) → q ≢ dst → L.file t q ≡ L.file s q)
  unfolding copy_file
  copy_file-file K src dst perm s {t} {f} ne there h =
      let (_, a, read, h1) = bind-eq-ok _ _ s h in
      let (_, b, made, h2) = bind-eq-ok _ _ a h1 in
      let (_, c, copied, changed) = bind-eq-ok _ _ b h2 in
      let same : s ≡ a = ap (λ r. r.1) (wrapping-eq-ok _ (query (O.open_read src)) s read) in
      let made' = wrapping-eq-ok _ (O.open_truncate dst perm) a made in
      let copied' = wrapping-eq-ok _ (O.copy src dst) b copied in
      let changed' = wrapping-eq-ok _ (O.chmod dst perm) c changed in
      let (k, empty) = K.open_truncate-ok dst perm a made' in
      let before = λ (q : Bytes) (ne : q ≢ dst).
        ap (λ r. L.file r.1 q) (sym made')
        ∙ K.open_truncate-frame dst perm a q ne
        ∙ ap (λ r. L.file r q) (sym same) in
      let full = K.copy-ok src dst b (before src ne ∙ there) empty copied' in
      (
        L.file-chmod dst perm c changed' full,
        λ q ne.
            ap (λ r. L.file r.1 q) (sym changed')
            ∙ L.chmod-frame dst perm c q ne
            ∙ ap (λ r. L.file r.1 q) (sym copied')
            ∙ K.copy-frame src dst b q ne
            ∙ before q ne,
      )

  pub copy_file-Puts :
      (K : CopyLaws L) (src dst : Bytes) (perm : ℕ) (s t : O.State) {f : File}
      → src ≢ dst
      → L.file s src ≡ some f
      → copy_file O src dst perm s ≡ (ok tt, t)
      → Puts L ((dst, record { content = f.content; mode = perm }) ∷ []) s t
  copy_file-Puts K src dst perm s t ne there h =
      let (now, frame) = copy_file-file K src dst perm s ne there h in
      Puts-one L dst _ s t now (λ q ne _. frame q ne)

  pub write_file-Puts :
      (path content : Bytes) (perm : ℕ) (s t : O.State)
      → write_file O path content perm s ≡ (ok tt, t)
      → Puts L (stored_entry path content perm ∷ []) s t
  unfolding write_file with_single_trailing_newline
  write_file-Puts path content perm s t h =
      let (written, frame) = write_chmod-file L path _ perm _ _ s h in
      Puts-one L path _ s t written frame

  -- The managed write of void-initfs leaves what that of void-init does.
  pub write_managed_file-Puts :
      (path rendered : Bytes) (perm : ℕ) (s t : O.State)
      → L.is_log path ≡ false
      → write_managed_file O path rendered perm s ≡ (ok tt, t)
      → Puts L (managed_entry path rendered perm (L.file s path) ∷ []) s t
  unfolding ◌>>=◌
  write_managed_file-Puts path rendered perm s t not_log h =
      let logged =
        write_managed_file-logged O path rendered perm s
        ∙ ap (λ r. continue r.0 (λ _. log_info O (codes "wrote " ++ path)) r.1) h in
      let (now, frame) = write_managed_file-file O L path rendered perm s not_log logged in
      let kept = λ (q : Bytes) (n : L.is_log q ≡ false). sym (L.log-frame _ _ t q n) in
      Puts-one L path _ s t (kept path not_log ∙ now) (λ q ne n. kept q n ∙ frame q ne n)
