-- ===== src/Managed/Content.antt =====
-- A marked text keeps its user section across rewrites.
use void_init.Base.{ℕ, ◌≡◌, refl, ap, sym, ◌∙◌, false, some, [], ◌∷◌, ◌++◌, append_assoc, Bytes}
use void_init.Text.Search.{index, Found, index-Found, take-Found, drop-Found}
use void_init.Text.Trim.{
  is_empty, trim_right, in_cutset, trim_right-append, trim_right_idem, trim_right-concat,
  trim_right-behind,
}
use void_init.Managed.{header, user_section, managed_text}

module _ {marker s : Bytes} {i : ℕ} (f : Found s marker i) (x : Bytes) where
  header-Found : header marker (f.before ++ (marker ++ x)) ≡ f.before ++ marker
  header-Found = rw (f.first x, header) (take-Found f x)

  user_section-Found : user_section marker (f.before ++ (marker ++ x)) ≡ x
  user_section-Found = rw (f.first x, user_section) (drop-Found f x)

-- The marker ends in a byte that is not trimmed, as `user_config_marker` does.
module _ (marker : Bytes) (ne : is_empty marker ≡ false) (keeps : trim_right marker ≡ marker) where
  -- The written text: up to the marker the rendered one, then the user section with its trailing
  -- blanks replaced by one newline.
  managed_text-Found :
      {rendered : Bytes} {i : ℕ} (f : Found rendered marker i) (existing : Bytes)
      → managed_text marker rendered existing
        ≡ f.before ++ (marker ++ (trim_right (user_section marker existing) ++ b'\n' ∷ []))
  unfolding managed_text
  managed_text-Found {rendered} f existing =
      let user = user_section marker existing in
      let head : header marker rendered ≡ f.before ++ marker =
        ap (header marker) f.splits ∙ header-Found f f.rest in
      let tail =
        trim_right-append (f.before ++ marker) user (trim_right-behind f.before marker ne keeps) in
      ap (λ h. trim_right (h ++ user) ++ b'\n' ∷ []) head
      ∙ ap (λ h. h ++ b'\n' ∷ []) tail
      ∙ simp append_assoc

  -- Written again, the user section has lost its trailing blanks and nothing else.
  pub user_section-managed_text :
      (rendered existing : Bytes) {i : ℕ}
      → index rendered marker ≡ some i
      → user_section marker (managed_text marker rendered existing)
        ≡ trim_right (user_section marker existing) ++ b'\n' ∷ []
  user_section-managed_text rendered existing h =
      let f = index-Found rendered marker h in
      ap (user_section marker) (managed_text-Found f existing) ∙ user_section-Found f _

  -- A second write of the same text changes nothing.
  pub managed_text_idem :
      (rendered existing : Bytes) {i : ℕ}
      → index rendered marker ≡ some i
      → managed_text marker rendered (managed_text marker rendered existing)
        ≡ managed_text marker rendered existing
  managed_text_idem rendered existing h =
      let f = index-Found rendered marker h in
      let user = user_section marker existing in
      let again = user_section-managed_text rendered existing h in
      let trimmed =
        trim_right-concat (trim_right user) b'\n' (unfold in_cutset in refl)
        ∙ trim_right_idem user in
      managed_text-Found f (managed_text marker rendered existing)
      ∙ ap (λ u. f.before ++ (marker ++ (trim_right u ++ b'\n' ∷ []))) again
      ∙ ap (λ u. f.before ++ (marker ++ (u ++ b'\n' ∷ []))) trimmed
      ∙ sym (managed_text-Found f existing)
