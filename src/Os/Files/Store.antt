-- ===== src/Os/Files/Store.antt =====
-- Writing a file and then setting its mode, as both programs do.
use void_init.Base.{ℕ, ◌≡◌, ◌≢◌, ap, sym, ◌∙◌, false, some, Bytes, ok, wrapping, ◌>>◌}
use void_init.Base.Effects.Laws.{bind-eq-ok, wrapping-eq-ok}
use void_init.Os.{Os}
use void_init.Os.Files.{FileLaws}

module _ {O : Os} (L : FileLaws O) where
  -- `u` differs from `s` in the file at `path` at most, and in the logger's files.
  abbrev pub Frame : Bytes → O.State → O.State → Type 0
  Frame path s u = (q : Bytes) → q ≢ path → L.is_log q ≡ false → L.file u q ≡ L.file s q

  -- The file at `path` is in `t` as it is in `s`, and so are the others.
  abbrev pub Unchanged : O.State → O.State → Type 0
  Unchanged s t = (q : Bytes) → L.is_log q ≡ false → L.file t q ≡ L.file s q

  pub write_chmod-file :
      (path text : Bytes) (perm : ℕ) (before after : Bytes) (s : O.State) {t : O.State}
      → (wrapping before (O.write_file path text perm) >> wrapping after (O.chmod path perm)) s
        ≡ (ok tt, t)
      → (L.file t path ≡ some (record { content = text; mode = perm })) × Frame path s t
  write_chmod-file path text perm before after s {t} h =
      let (_, b, wrote, changed) = bind-eq-ok _ _ s h in
      let wrote' = wrapping-eq-ok before _ s wrote in
      let changed' = wrapping-eq-ok after _ b changed in
      let (k, written) = L.file-write_file path text perm s wrote' in
      (
        L.file-chmod path perm b changed' written,
        λ q ne not_log.
            ap (λ r. L.file r.1 q) (sym changed')
            ∙ L.chmod-frame path perm b q ne
            ∙ ap (λ r. L.file r.1 q) (sym wrote')
            ∙ L.write_file-frame path text perm s q ne,
      )
