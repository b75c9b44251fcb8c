-- ===== src/Initfs/Util/Reruns.antt =====
-- cmd/void-initfs/util.go: what is left of the user's section when void-initfs runs again and again.
use void_init.Base.{
  ℕ, ◌≡◌, refl, ap, sym, ◌∙◌, false, some, List, [], ◌∷◌, ◌++◌, All, Bytes, ok, Exec, for_each,
}
use void_init.Base.Effects.Laws.{bind-eq-ok}
use void_init.Os.{Os}
use void_init.Os.Files.{FileLaws}
use void_init.Os.Files.Changes.{overlaid-one}
use void_init.Text.Search.{index}
use void_init.Text.Trim.{trim_right, in_cutset, trim_right_idem, trim_right-concat}
use void_init.Managed.Content.{user_section-managed_text}
use void_init.Init.Fsutil.Laws.{content_of, marker-ne-nil, marker-trimmed}
use void_init.Initfs.Util.{user_config_marker, user_section, write_managed_file}
use void_init.Initfs.Util.Copies.{managed_entry, write_managed_file-Puts}

-- A text that is rendered, and the mode of its file.
abbrev pub Rendered : Type 0
Rendered = Bytes × ℕ

abbrev pub HasMarker : Rendered → Type 0
HasMarker (text, _) = (i : ℕ) × (index text user_config_marker ≡ some i)

-- One line break behind a text, in place of its trailing blanks.
abbrev pub ended : Bytes → Bytes
ended s = trim_right s ++ b'\n' ∷ []

ended_idem : (s : Bytes) → ended (ended s) ≡ ended s
ended_idem s =
    ap (λ t. t ++ b'\n' ∷ [])
      (trim_right-concat (trim_right s) b'\n' (unfold in_cutset in refl) ∙ trim_right_idem s)

abbrev pub rewrite_with : (O : Os) → Bytes → Rendered → Exec O.State (Unit {0})
rewrite_with O path (text, perm) = write_managed_file O path text perm

module _ {O : Os} (L : FileLaws O) (path : Bytes) (not_log : L.is_log path ≡ false) where
  abbrev pub section_in : O.State → Bytes
  section_in s = user_section (content_of (L.file s path))

  rewrite-section :
      (r : Rendered) (s : O.State) {t : O.State}
      → HasMarker r
      → rewrite_with O path r s ≡ (ok tt, t)
      → section_in t ≡ ended (section_in s)
  rewrite-section (text, perm) s {t} (_, marked) h =
      let old = L.file s path in
      let put = write_managed_file-Puts L path text perm s t not_log h path not_log in
      ap (λ f. user_section (content_of f))
        (put ∙ overlaid-one path (managed_entry path text perm old).1 (L.file s))
      ∙ user_section-managed_text user_config_marker marker-ne-nil marker-trimmed text
          (content_of old) marked

  -- Behind any number of rewrites of a file, one at least, that all succeed, with whatever texts and
  -- modes, where each text has the marker and the path is not the logger's, the user section of the
  -- file is the one that it had before the first, with one newline in place of its trailing blanks.
  pub rewrites-user_section :
      (r : Rendered) (more : List Rendered) (s : O.State) {t : O.State}
      → All HasMarker (r ∷ more)
      → for_each (rewrite_with O path) (r ∷ more) s ≡ (ok tt, t)
      → section_in t ≡ ended (section_in s)
  unfolding for_each
  rewrites-user_section r [] s (marked, _) h =
      let (_, a, first, rest) = bind-eq-ok (rewrite_with O path r) _ s h in
      ap (λ (q : O.State). section_in q) (sym (ap (λ r. r.1) rest))
      ∙ rewrite-section r s marked first
  rewrites-user_section r (next ∷ more) s (marked, others) h =
      let (_, a, first, rest) = bind-eq-ok (rewrite_with O path r) _ s h in
      rewrites-user_section next more a others rest
      ∙ ap ended (rewrite-section r s marked first)
      ∙ ended_idem (section_in s)
