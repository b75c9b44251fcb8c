-- ===== src/Init/Apply/Keys.antt =====
-- cmd/void-init/apply.go: what the installation of the SSH keys leaves on the host.
mod Tests
use void_init.Base.{
  ℕ, ◌≡◌, ◌≢◌, ap, sym, ◌∙◌, subst, false, Option, some, List, ◌++◌, Bytes, codes, ok, Result,
  query, lift, wrapping, ◌>>=◌, ◌>>◌, arith,
}
use void_init.Base.Effects.Laws.{bind-eq-ok, wrapping-eq-ok, query-eq-ok, lift-eq-ok, ok-injective}
use void_init.Os.{Os, Account, log_info}
use void_init.Os.Files.{File, FileLaws}
use void_init.Os.Files.Copies.{CopyLaws}
use void_init.Os.Files.Owners.{OwnerLaws}
use void_init.Text.Atoi.{ℤ, pos, atoi}
use void_init.Vlog.Level.{info}
use void_init.Managed.{user_config_marker, managed_text}
use void_init.Init.Fsutil.Owners.{write_managed_file-owner}
use void_init.Init.Fsutil.Laws.{content_of, write_managed_file-file}
use void_init.Init.Apply.{
  installing, install_keys, ssh_dir, authorized_keys_path, authorized_keys,
  apply_ssh_authorized_keys,
}

module _ {O : Os} (L : FileLaws O) (W : OwnerLaws L) where
  -- What the keys of an account leave: the file, and the owners of it and of its directory.
  abbrev pub Owned : Bytes → List Bytes → ℕ → ℕ → Option File → O.State → Type 0
  Owned home keys m n old t =
      (L.file t (authorized_keys_path home)
        ≡ some (record {
          content = managed_text user_config_marker (authorized_keys keys) (content_of old);
          mode = 0o600;
        }))
      × (W.owner t (authorized_keys_path home) ≡ some (pos m, pos n))
      × (W.owner t (ssh_dir home) ≡ some (pos m, pos n))

  install_keys-Owned :
      (K : CopyLaws L) (home : Bytes) (keys : List Bytes) (m n : ℕ) (s : O.State) {t : O.State}
      → L.is_log (authorized_keys_path home) ≡ false
      → L.is_log (ssh_dir home) ≡ false
      → ssh_dir home ≢ authorized_keys_path home
      → install_keys O home keys (pos m) (pos n) s ≡ (ok tt, t)
      → Owned home keys m n (L.file s (authorized_keys_path home)) t
  unfolding install_keys wrapping
  install_keys-Owned K home keys m n s {t} free_path free_dir ne h =
      let (_, a, made, h1) = bind-eq-ok _ _ s h in
      let (_, b, given, h2) = bind-eq-ok _ _ a h1 in
      let (_, c, wrote, last) = bind-eq-ok _ _ b h2 in
      let path = authorized_keys_path home in
      let dir = ssh_dir home in
      let given' = wrapping-eq-ok _ (O.chown dir (pos m) (pos n)) a given in
      let last' = wrapping-eq-ok _ (O.chown path (pos m) (pos n)) c last in
      let (written, _) =
        write_managed_file-file O L path (authorized_keys keys) 0o600 b free_path wrote in
      let old =
        ap (λ r. L.file r.1 path) (sym given')
        ∙ W.chown-other dir (pos m) (pos n) a path (λ e. ne (sym e))
        ∙ ap (λ r. L.file r.1 path) (sym made)
        ∙ K.mkdir_all-frame dir 0o700 s path in
      (
        ap (λ r. L.file r.1 path) (sym last')
            ∙ W.chown-file path (pos m) (pos n) c (omega arith) written
            ∙ ap (λ f. some (stored (content_of f))) old,
        W.chown-ok path m n c last',
        ap (λ r. W.owner r.1 dir) (sym last')
            ∙ W.chown-frame path (pos m) (pos n) c dir ne
            ∙ write_managed_file-owner L W path (authorized_keys keys) 0o600 b dir ne free_dir wrote
            ∙ W.chown-ok dir m n a given',
      )
    where
      stored : Bytes → File
      stored text = record {
        content = managed_text user_config_marker (authorized_keys keys) text;
        mode = 0o600;
      }

  -- If the account's ids are numbers, and the key file and its directory are two paths that are not
  -- the logger's, an installation of the keys that succeeds leaves them in the file, up to the marker
  -- and in front of the user section of the old file, with mode 0600; the file and its directory
  -- belong to the account.
  pub apply_ssh_authorized_keys-Owned :
      (K : CopyLaws L) (username : Bytes) (keys : List Bytes) (s : O.State) {t : O.State}
      (u : Account) {m n : ℕ}
      → O.lookup_user username (O.log info (installing username keys) s) ≡ ok u
      → atoi O.quote u.uid ≡ ok (pos m)
      → atoi O.quote u.gid ≡ ok (pos n)
      → L.is_log (authorized_keys_path u.home_dir) ≡ false
      → L.is_log (ssh_dir u.home_dir) ≡ false
      → ssh_dir u.home_dir ≢ authorized_keys_path u.home_dir
      → apply_ssh_authorized_keys O username keys s ≡ (ok tt, t)
      → Owned u.home_dir keys m n (L.file s (authorized_keys_path u.home_dir)) t
  unfolding apply_ssh_authorized_keys
  apply_ssh_authorized_keys-Owned K username keys s {t} u {m} {n} found uid gid free_path free_dir
        ne h =
      let (_, a, logged, h1) = bind-eq-ok _ _ s h in
      let (v, b, looked, h2) = bind-eq-ok _ _ a h1 in
      let (x, c, read_uid, h3) = bind-eq-ok _ _ b h2 in
      let (y, d, read_gid, h4) = bind-eq-ok _ _ c h3 in
      let there : O.log info (installing username keys) s ≡ a = ap (λ r. r.1) logged in
      let (looked', ab) = query-eq-ok _ (O.lookup_user username) a looked in
      let same : v ≡ u =
        ok-injective (sym looked' ∙ ap (O.lookup_user username) (sym there) ∙ found) in
      let (uid', bc) = lift-eq-ok _ (atoi O.quote v.uid) b read_uid in
      let (gid', cd) = lift-eq-ok _ (atoi O.quote v.gid) c read_gid in
      let x_is : x ≡ pos m =
        ok-injective (sym uid' ∙ ap (λ (a : Account). atoi O.quote a.uid) same ∙ uid) in
      let y_is : y ≡ pos n =
        ok-injective (sym gid' ∙ ap (λ (a : Account). atoi O.quote a.gid) same ∙ gid) in
      let path = authorized_keys_path u.home_dir in
      let run : install_keys O u.home_dir keys (pos m) (pos n) d ≡ (ok tt, t) =
        (λ i. install_keys O (sym same i).home_dir keys (sym x_is i) (sym y_is i) d) ∙ h4 in
      let old : L.file d path ≡ L.file s path =
        ap (λ r. L.file r path) (sym (there ∙ ab ∙ bc ∙ cd)) ∙ L.log-frame _ _ s path free_path in
      subst (λ f. Owned u.home_dir keys m n f t) old
        (install_keys-Owned K u.home_dir keys m n d free_path free_dir ne run)
