-- ===== src/Initfs/Xbps/Download/Laws.antt =====
-- What the host trusts of a download.
use void_init.Base.{◌≡◌, ap, sym, subst, Bytes, Result, ok, err, Exec, pure}
use void_init.Base.Effects.Laws.{bind-eq-ok, wrapping-eq-ok}
use void_init.Os.{Os}
use void_init.Text.Parts.{split}
use void_init.Initfs.Xbps.Download.{
  Remote, download, download_tarball, removing_file, removing_tree, verified_extract,
  download_and_verify_static_xbps, static_xbps_url, sha256sums_url, extract, untarred,
}
use void_init.Initfs.Xbps.Checksum.{lines_of}
use void_init.Initfs.Xbps.Checksum.Laws.{Listed, verify_checksum_iff}

module _ (O : Os) (R : Remote O) where
  download_tarball-download :
      (tmp : Bytes) (s : O.State) {body : Bytes} {t : O.State}
      → download_tarball O R tmp s ≡ (ok body, t)
      → download O R static_xbps_url (R.write_temp tmp) s ≡ (ok body, t)
  unfolding download_tarball
  download_tarball-download tmp s {body} {t} h =
      ended (download O R static_xbps_url (R.write_temp tmp) s) h
    where
      ended :
          (r : Result Bytes × O.State)
          → ◌≡◌ {A = Result Bytes × O.State}
              (elim r.0 [ ok body ↦ (ok body, r.1) | err e ↦ (err e, (R.close_temp tmp r.1).1) ])
              (ok body, t)
          → r ≡ (ok body, t)
      ended (ok b, u) h = h
      ended (err e, u) h = absurd (cc)

  -- A text that was downloaded from the address and given to the writer: all of the body of a reply
  -- that was no error.
  abbrev pub Downloaded : Bytes → (Bytes → Exec O.State (Unit {0})) → Bytes → Type 0
  Downloaded url write body = (s t : O.State) × (download O R url write s ≡ (ok body, t))

  -- The tarball was downloaded to `tmp`, its digest is on the list, and `tar`, which ended in `t`,
  -- extracted it to `dir`.
  abbrev pub Trusted : (sums tmp dir : Bytes) → O.State → Type 0
  Trusted sums tmp dir t =
      (body : Bytes) × Downloaded static_xbps_url (R.write_temp tmp) body
      × Listed (R.sha256 body) (lines_of (split sums b'\n'))
      × ((s : O.State) × (untarred O R tmp dir s ≡ (ok tt, t)))

  extract-untarred :
      (tmp made : Bytes) (s : O.State) {dir : Bytes} {t : O.State}
      → extract O R tmp made s ≡ (ok dir, t)
      → untarred O R tmp dir s ≡ (ok tt, t)
  unfolding extract
  extract-untarred tmp made s {dir} {t} h =
      let (same, ran) = ended (untarred O R tmp made s) h in
      subst (λ d. untarred O R tmp d s ≡ (ok tt, t)) same ran
    where
      ended :
          (r : Result (Unit {0}) × O.State)
          → ◌≡◌ {A = Result Bytes × O.State}
              (elim r.0 [ ok _ ↦ (ok made, r.1) | err e ↦ (err e, removing_tree O R made r.1) ])
              (ok dir, t)
          → (made ≡ dir) × (r ≡ (ok tt, t))
      ended (ok _, u) h = (cc, (λ i. (ok tt, (h i).1)))
      ended (err e, u) h = absurd (cc)

  verified_extract-Trusted :
      (sums tmp : Bytes) (s : O.State) {dir : Bytes} {t : O.State}
      → verified_extract O R sums tmp s ≡ (ok dir, t)
      → Trusted sums tmp dir t
  unfolding verified_extract
  verified_extract-Trusted sums tmp s h =
      let (_, s1, _, h1) = bind-eq-ok _ _ s h in
      let (body, s2, got, h2) = bind-eq-ok _ _ s1 h1 in
      let (_, s3, closed, h3) = bind-eq-ok _ _ s2 h2 in
      let (_, s4, verified, h4) = bind-eq-ok _ _ s3 h3 in
      let (_, s5, _, h5) = bind-eq-ok _ _ s4 h4 in
      let (made, s6, _, extracted) = bind-eq-ok _ _ s5 h5 in
      (
        body,
        (s1, s2, download_tarball-download tmp s1 got),
        (verify_checksum_iff sums (R.sha256 body)).0
            (ap (λ (r : Result (Unit {0}) × O.State). r.0) verified),
        (s6, extract-untarred tmp made s6 extracted),
      )

  -- If the download and its check succeed, a list and a tarball were downloaded from their
  -- addresses, the digest of the tarball is on that list, and it is this tarball that `tar` has
  -- extracted to the directory, behind which only the tarball was removed.
  pub download_and_verify_static_xbps-Trusted :
      (s : O.State) {dir : Bytes} {t : O.State}
      → download_and_verify_static_xbps O R s ≡ (ok dir, t)
      → (sums tmp : Bytes) × (u : O.State) × Downloaded sha256sums_url (λ _. pure tt) sums
        × Trusted sums tmp dir u
        × (t ≡ (O.remove tmp u).1)
  unfolding download_and_verify_static_xbps removing_file
  download_and_verify_static_xbps-Trusted s h =
      let (_, s1, _, h1) = bind-eq-ok _ _ s h in
      let (_, s2, _, h2) = bind-eq-ok _ _ s1 h1 in
      let (sums, s3, got, h3) = bind-eq-ok _ _ s2 h2 in
      let (tmp, s4, _, h4) = bind-eq-ok _ _ s3 h3 in
      let run = verified_extract O R sums tmp s4 in
      (
        sums,
        tmp,
        run.1,
        (s2, s3, wrapping-eq-ok _ _ s2 got),
        verified_extract-Trusted sums tmp s4 (ap (λ (r : Result Bytes × O.State). (r.0, run.1)) h4),
        sym (ap (λ r. r.1) h4),
      )
