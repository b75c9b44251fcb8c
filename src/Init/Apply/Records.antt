-- ===== src/Init/Apply/Records.antt =====
-- The records and lines that checked user data is spliced into.
use void_init.Base.{
  ℕ, ◌≡◌, ◌≢◌, refl, ap, sym, ◌∙◌, some, [], ◌∷◌, ◌++◌, Bytes, codes, All-append, append_assoc,
  arith, ok,
}
use void_init.Text.Search.{cut}
use void_init.Text.Search.Cut.{cut-Lacks}
use void_init.Text.Parts.{split, split-join_sep, split_at_sep}
use void_init.Managed.{user_config_marker}
use void_init.Init.UserData.{UserData, validate}
use void_init.Init.UserData.Safety.{token-Lacks, lines-Lacks, validate-IsSafe}
use void_init.Init.Apply.{chpasswd_record, authorized_keys}

colon-ne-newline : ◌≢◌ {A = ℕ} b':' b'\n'
colon-ne-newline = omega arith

marker-split : split (b'\n' ∷ user_config_marker) b'\n' ≡ [] ∷ user_config_marker ∷ []
unfolding split codes
marker-split = refl

module _ (quote : Bytes → Bytes) (u : UserData) (accepted : validate quote u ≡ ok tt) where
  -- Of accepted user data, the record for `chpasswd` is one line, whose first colon is the one behind
  -- the user name.
  pub chpasswd_record-cut :
      (split (chpasswd_record u.user u.password) b'\n' ≡ (u.user ++ (b':' ∷ u.password)) ∷ [] ∷ [])
      × (cut (chpasswd_record u.user u.password) (b':' ∷ [])
          ≡ some (u.user, u.password ++ b'\n' ∷ []))
  chpasswd_record-cut =
      let safe = validate-IsSafe quote u accepted in
      let line =
        All-append _ u.user (b':' ∷ u.password) (token-Lacks u.user safe.user_token)
          (colon-ne-newline, token-Lacks u.password safe.password_token) in
      (
        ap (λ r. split r b'\n') (sym (append_assoc u.user (b':' ∷ u.password) (b'\n' ∷ [])))
            ∙ split_at_sep (u.user ++ (b':' ∷ u.password)) [] b'\n' line
            ∙ (unfold split in refl),
        cut-Lacks u.user _ b':' safe.user_colon,
      )

  -- Of accepted user data with a key at least, the rendered keys split into lines that are the keys
  -- in their order, an empty line and the marker.
  pub authorized_keys-split :
      u.ssh_authorized_keys ≢ []
      → split (authorized_keys u.ssh_authorized_keys) b'\n'
        ≡ u.ssh_authorized_keys ++ ([] ∷ user_config_marker ∷ [])
  unfolding codes
  authorized_keys-split ne =
      let safe = validate-IsSafe quote u accepted in
      let lines = lines-Lacks u.ssh_authorized_keys safe.keys_lines in
      split-join_sep u.ssh_authorized_keys (b'\n' ∷ user_config_marker) b'\n' ne lines
      ∙ ap (◌++◌ u.ssh_authorized_keys) marker-split
