-- ===== src/Os/Memory/Laws.antt =====
-- The host in memory does what the programs rely on.
use mathlib.Core.Option
use void_init.Base.{
  ℕ, ◌≡◌, ◌≢◌, refl, false, [], ◌∷◌, none, some, Bytes, equal_iff, equal_refl, Error, ap, sym, ◌∙◌,
  inl, inr, Option-cases, ok, err, arith,
}
use void_init.Os.Files.{File, FileLaws}
use void_init.Os.Memory.{Host, Files, find, put, delete, mode_or, memory}

pub find-put_self : (p : Bytes) (f : File) (files : Files) → find p (put p f files) ≡ some f
unfolding find put
find-put_self p f [] = rw equal_refl
find-put_self p f ((q, g) ∷ files) = ground (arith, equal_refl p, find-put_self p f files)

pub find-put_ne :
    (p q : Bytes) (f : File) (files : Files) → q ≢ p → find q (put p f files) ≡ find q files
unfolding find put
find-put_ne p q f [] ne = ground (arith, equal_iff p q)
find-put_ne p q f ((r, g) ∷ files) ne =
    ground (arith, equal_iff p q, equal_iff r q, equal_iff r p, find-put_ne p q f files ne)

pub find-delete_self : (p : Bytes) (files : Files) → find p (delete p files) ≡ none
unfolding find delete
find-delete_self p [] = refl
find-delete_self p ((q, g) ∷ files) = ground (arith, find-delete_self p files)

pub find-delete_ne : (p q : Bytes) (files : Files) → q ≢ p → find q (delete p files) ≡ find q files
unfolding find delete
find-delete_ne p q [] ne = refl
find-delete_ne p q ((r, g) ∷ files) ne =
    ground (arith, equal_iff r p, equal_iff r q, find-delete_ne p q files ne)

module _ (p : Bytes) (s : Host) where
  pub read-ok :
      {c : Bytes} → memory.read_file p s ≡ ok c → Option.map File.content (find p s.files) ≡ some c
  read-ok h = ground arith

  pub read-missing : {e : Error} → memory.read_file p s ≡ err e → find p s.files ≡ none
  read-missing h = ground arith

  pub chmod-file :
      (m : ℕ) {t : Host} {f : File}
      → memory.chmod p m s ≡ (ok tt, t)
      → find p s.files ≡ some f
      → find p t.files ≡ some (record f { mode = m })
  chmod-file m {f} h e = ground (arith, find-put_self p (record f { mode = m }) s.files)

  pub chmod-other :
      (m : ℕ) (q : Bytes) → q ≢ p → find q (memory.chmod p m s).1.files ≡ find q s.files
  chmod-other m q ne = elim (Option-cases (find p s.files)) [
    | inl e ↦ rw e
    | inr (f, e) ↦ rw e (find-put_ne p q (record f { mode = m }) s.files ne)
  ]

abbrev pub memory-FileLaws : FileLaws memory
memory-FileLaws = record {
  file = λ h p. find p h.files;
  is_log = λ p. false;
  read_file-ok = λ p s h. read-ok p s h;
  read_file-missing = λ p s h e. read-missing p s h;
  file-write_file = λ p c m s h.
      (mode_or m (find p s.files), ap (λ r. find p r.1.files) (sym h) ∙ find-put_self p _ s.files);
  file-chmod = λ p m s h e. chmod-file p s m h e;
  write_file-frame = λ p c m s q ne. find-put_ne p q _ s.files ne;
  chmod-frame = λ p m s q ne. chmod-other p s m q ne;
  log-frame = λ l m s q n. refl;
}
