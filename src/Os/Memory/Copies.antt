-- ===== src/Os/Memory/Copies.antt =====
-- The host in memory does what a copy of a file relies on.
use void_init.Base.{
  ℕ, ◌≡◌, ◌≢◌, refl, [], ◌∷◌, some, Bytes, equal, equal_iff, ap, sym, ◌∙◌, inl, inr, Bool-cases,
  Option-cases, ok, arith,
}
use void_init.Os.Files.{File}
use void_init.Os.Files.Copies.{CopyLaws, is_below, cleared}
use void_init.Os.Memory.{Host, Files, find, delete_below, mode_or, memory}
use void_init.Os.Memory.Laws.{find-put_self, find-put_ne, memory-FileLaws}

pub find-delete_below :
    (dir q : Bytes) (files : Files)
    → find q (delete_below dir files) ≡ cleared dir (λ p. find p files) q
unfolding find delete_below
find-delete_below dir q [] = ground arith
find-delete_below dir q ((p, f) ∷ files) = elim (Bool-cases (equal p q)) [
  | inl same ↦
      let e : is_below dir p ≡ is_below dir q = ap (is_below dir) ((equal_iff p q).0 same) in
      ground (arith, e, same, find-delete_below dir q files)
  | inr other ↦ ground (arith, find-delete_below dir q files)
]

module _ (p q : Bytes) (s : Host) where
  pub copy-full :
      {t : Host} {f : File} {k : ℕ}
      → find p s.files ≡ some f
      → find q s.files ≡ some (record { content = []; mode = k })
      → memory.copy p q s ≡ (ok tt, t)
      → find q t.files ≡ some (record { content = f.content; mode = k })
  copy-full {t} {f} {k} there empty h =
      let moved = record f { mode = k } in
      ap (λ r. find q r.1.files) (sym (rw (there, empty) at h)) ∙ find-put_self q moved s.files

  pub copy-other : (r : Bytes) → r ≢ q → find r (memory.copy p q s).1.files ≡ find r s.files
  copy-other r ne = elim (Option-cases (find p s.files)) [
    | inl e ↦ rw e
    | inr (f, e) ↦ rw e (find-put_ne q r _ s.files ne)
  ]

abbrev pub memory-CopyLaws : CopyLaws memory-FileLaws
memory-CopyLaws = record {
  open_truncate-ok = λ p m s h.
      (mode_or m (find p s.files), ap (λ r. find p r.1.files) (sym h) ∙ find-put_self p _ s.files);
  open_truncate-frame = λ p m s q ne. find-put_ne p q _ s.files ne;
  copy-ok = λ p q s there empty h. copy-full p q s there empty h;
  copy-frame = λ p q s r ne. copy-other p q s r ne;
  mkdir_all-frame = λ p m s q. refl;
  remove_all-ok = λ p s q h. ap (λ r. find q r.1.files) (sym h) ∙ find-delete_below p q s.files;
}
