-- ===== src/Vlog/Disk/Handles.antt =====
-- What a logger relies on besides: open and closed files, and the standard error.
use void_init.Base.{ℕ, ◌≡◌, none, some, ◌++◌, Bytes, Error, ok, err}
use void_init.Vlog.Disk.{Disk, DiskLaws}

pub record HandleLaws {D : Disk} (L : DiskLaws D) : Type 0 where
  -- What has been written to the standard error.
  pub printed : D.State → Bytes
  pub stderr-printed : (x : Bytes) (s : D.State) → printed (D.stderr x s) ≡ printed s ++ x
  pub stderr-content :
      (x : Bytes) (s : D.State) (q : Bytes) → L.content (D.stderr x s) q ≡ L.content s q
  pub stderr-opened :
      (x : Bytes) (s : D.State) (h : D.Handle) → L.opened (D.stderr x s) h ≡ L.opened s h
  -- `Close` makes a file unusable, also where it returns an error, and it stays closed.
  pub close-closed : (h : D.Handle) (s : D.State) → L.opened (D.close h s).1 h ≡ none
  pub remove-closed :
      (p : Bytes) (s : D.State) (h : D.Handle)
      → L.opened s h ≡ none
      → L.opened (D.remove p s).1 h ≡ none
  pub rename-closed :
      (p q : Bytes) (s : D.State) (h : D.Handle)
      → L.opened s h ≡ none
      → L.opened (D.rename p q s).1 h ≡ none
  pub open-opened :
      (p : Bytes) (m : ℕ) (s : D.State) {h : D.Handle} {t : D.State}
      → D.open_append p m s ≡ (ok h, t)
      → L.opened t h ≡ some p
  pub open-failed :
      (p : Bytes) (m : ℕ) (s : D.State) {e : Error} {t : D.State} (h : D.Handle)
      → D.open_append p m s ≡ (err e, t)
      → L.opened s h ≡ none
      → L.opened t h ≡ none
  -- A write to a closed file fails and changes nothing; any other leaves the file open.
  pub write-closed :
      (h : D.Handle) (x : Bytes) (s : D.State) (q : Bytes)
      → L.opened s h ≡ none
      → L.content (D.write h x s).1 q ≡ L.content s q
  pub write-opened :
      (h : D.Handle) (x : Bytes) (s : D.State) → L.opened (D.write h x s).1 h ≡ L.opened s h
  -- None of the calls on files prints anything, and to make a directory changes no file.
  pub close-printed : (h : D.Handle) (s : D.State) → printed (D.close h s).1 ≡ printed s
  pub remove-printed : (p : Bytes) (s : D.State) → printed (D.remove p s).1 ≡ printed s
  pub rename-printed : (p q : Bytes) (s : D.State) → printed (D.rename p q s).1 ≡ printed s
  pub open-printed : (p : Bytes) (m : ℕ) (s : D.State) → printed (D.open_append p m s).1 ≡ printed s
  pub write-printed :
      (h : D.Handle) (x : Bytes) (s : D.State) → printed (D.write h x s).1 ≡ printed s
  pub mkdir_all-printed :
      (p : Bytes) (m : ℕ) (s : D.State) → printed (D.mkdir_all p m s).1 ≡ printed s
  pub mkdir_all-content :
      (p : Bytes) (m : ℕ) (s : D.State) (q : Bytes)
      → L.content (D.mkdir_all p m s).1 q ≡ L.content s q
