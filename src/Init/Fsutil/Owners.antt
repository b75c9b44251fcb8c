-- ===== src/Init/Fsutil/Owners.antt =====
-- Who owns the files beside a managed file.
use void_init.Base.{ℕ, ◌≡◌, ◌≢◌, ap, sym, ◌∙◌, false, Bytes, ok, wrapping}
use void_init.Base.Effects.Laws.{bind-eq-ok}
use void_init.Os.{Os}
use void_init.Os.Files.{FileLaws}
use void_init.Os.Files.Owners.{OwnerLaws}
use void_init.Init.Fsutil.{write_managed_file}
use void_init.Init.Fsutil.Laws.{read_user_section-eq}

module _ {O : Os} (L : FileLaws O) (W : OwnerLaws L) where
  -- A managed write leaves the other owners as they are.
  pub write_managed_file-owner :
      (path rendered : Bytes) (perm : ℕ) (s : O.State) {t : O.State} (q : Bytes)
      → q ≢ path
      → L.is_log q ≡ false
      → write_managed_file O path rendered perm s ≡ (ok tt, t)
      → W.owner t q ≡ W.owner s q
  unfolding write_managed_file wrapping
  write_managed_file-owner path rendered perm s q ne n h =
      let (user, a, read, h1) = bind-eq-ok _ _ s h in
      let (_, b, wrote, h2) = bind-eq-ok _ _ a h1 in
      let (_, c, changed, logged) = bind-eq-ok _ _ b h2 in
      let (same, _) = read_user_section-eq O L path s read in
      ap (λ r. W.owner r.1 q) (sym logged)
      ∙ W.log-owner _ _ c q n
      ∙ ap (λ r. W.owner r.1 q) (sym changed)
      ∙ W.chmod-owner path perm b q
      ∙ ap (λ r. W.owner r.1 q) (sym wrote)
      ∙ W.write_file-owner path _ perm a q ne
      ∙ ap (λ u. W.owner u q) same
