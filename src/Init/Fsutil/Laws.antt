-- ===== src/Init/Fsutil/Laws.antt =====
-- What a rewrite of a managed file leaves on the host.
use void_init.Base.{
  ℕ, refl, ◌∷◌, ◌≡◌, ap, sym, ◌∙◌, false, Option, none, some, [], ◌++◌, Bytes, codes, ok, inl, inr,
  arith,
}
use void_init.Base.Effects.Laws.{bind-eq-ok, then_assoc, Result-cases}
use void_init.Os.{Os}
use void_init.Os.Files.{File, FileLaws}
use void_init.Os.Files.Store.{Frame, write_chmod-file}
use void_init.Text.Search.{index}
use void_init.Text.Trim.{is_empty, trim_right}
use void_init.Managed.Content.{user_section-managed_text, managed_text_idem}
use void_init.Managed.{
  header, user_section, user_config_marker, managed_text, with_single_trailing_newline,
}
use void_init.Init.Fsutil.{read_user_section, write_managed_file}

-- The bytes of a file, and of a missing file none.
abbrev pub content_of : Option File → Bytes
content_of none = []
content_of (some f) = f.content

pub marker-ne-nil : is_empty user_config_marker ≡ false
unfolding codes
marker-ne-nil = refl

pub marker-trimmed : trim_right user_config_marker ≡ user_config_marker
unfolding codes trim_right
marker-trimmed = refl

module _ (O : Os) (L : FileLaws O) where
  pub read_user_section-eq :
      (path : Bytes) (s : O.State) {u : Bytes} {t : O.State}
      → read_user_section O path s ≡ (ok u, t)
      → (t ≡ s) × (u ≡ user_section user_config_marker (content_of (L.file s path)))
  unfolding read_user_section index codes
  read_user_section-eq path s h = elim (Result-cases (O.read_file path s)) [
    | inl (old, e) ↦ ground (arith, L.read_file-ok path s e)
    | inr (why, e) ↦ ground (arith, L.read_file-missing path s e)
  ]

  -- A rewrite that succeeds, of a path that is not the logger's, leaves in the file the rendered text
  -- up to its marker and the user section of the old file behind it, with one newline at the end, and
  -- exactly the wanted mode; no other file changes, but for the logger's.
  pub write_managed_file-file :
      (path rendered : Bytes) (perm : ℕ) (s : O.State) {t : O.State}
      → L.is_log path ≡ false
      → write_managed_file O path rendered perm s ≡ (ok tt, t)
      → (L.file t path
          ≡ some (record {
            content = managed_text user_config_marker rendered (content_of (L.file s path));
            mode = perm;
          }))
        × Frame L path s t
  unfolding write_managed_file managed_text
  write_managed_file-file path rendered perm s {t} not_log h =
      let (user, a, read, rest) = bind-eq-ok (read_user_section O path) _ s h in
      let (_, b, stored, logged) = bind-eq-ok _ _ a (sym (then_assoc _ _ _ a) ∙ rest) in
      let (written, frame) = write_chmod-file L path _ perm _ _ a stored in
      let (same, section) = read_user_section-eq path s read in
      let kept = λ (q : Bytes) (n : L.is_log q ≡ false).
        ap (λ r. L.file r.1 q) (sym logged) ∙ L.log-frame _ _ b q n in
      (
        kept path not_log ∙ written ∙ ap (λ u. some (stored_file u)) section,
        λ q ne n. kept q n ∙ frame q ne n ∙ ap (λ r. L.file r q) same,
      )
    where
      stored_file : Bytes → File
      stored_file u = record {
        content = with_single_trailing_newline (header user_config_marker rendered ++ u);
        mode = perm;
      }

  -- If the rendered text has the marker, a rewrite that succeeds, of a path that is not the logger's,
  -- keeps the user section of the file, but for its trailing blanks, which become one newline.
  pub write_managed_file-user_section :
      (path rendered : Bytes) (perm : ℕ) (s : O.State) {t : O.State} {i : ℕ}
      → L.is_log path ≡ false
      → index rendered user_config_marker ≡ some i
      → write_managed_file O path rendered perm s ≡ (ok tt, t)
      → user_section user_config_marker (content_of (L.file t path))
        ≡ trim_right (user_section user_config_marker (content_of (L.file s path))) ++ b'\n' ∷ []
  write_managed_file-user_section path rendered perm s not_log marked h =
      let (now, _) = write_managed_file-file path rendered perm s not_log h in
      ap (λ f. user_section user_config_marker (content_of f)) now
      ∙ user_section-managed_text user_config_marker marker-ne-nil marker-trimmed rendered _ marked

  -- If the rendered text has the marker, a second rewrite with the same text and mode, where both
  -- succeed and the path is not the logger's, leaves the file as the first one did.
  pub write_managed_file_idem :
      (path rendered : Bytes) (perm : ℕ) (s : O.State) {t u : O.State} {i : ℕ}
      → L.is_log path ≡ false
      → index rendered user_config_marker ≡ some i
      → write_managed_file O path rendered perm s ≡ (ok tt, t)
      → write_managed_file O path rendered perm t ≡ (ok tt, u)
      → L.file u path ≡ L.file t path
  write_managed_file_idem path rendered perm s not_log marked first second =
      let (now, _) = write_managed_file-file path rendered perm s not_log first in
      let (later, _) = write_managed_file-file path rendered perm _ not_log second in
      let same =
        managed_text_idem user_config_marker marker-ne-nil marker-trimmed rendered
          (content_of (L.file s path)) marked in
      later
      ∙ ap (λ f. some (file_of (managed_text user_config_marker rendered (content_of f)))) now
      ∙ ap (λ c. some (file_of c)) same
      ∙ sym now
    where
      file_of : Bytes → File
      file_of c = record { content = c; mode = perm }
