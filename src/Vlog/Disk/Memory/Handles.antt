-- ===== src/Vlog/Disk/Memory/Handles.antt =====
-- The disk in memory does what a logger relies on besides.
use void_init.Base.{
  ◌≡◌, refl, ap, ◌∙◌, false, Option, none, some, List, [], ◌∷◌, ◌++◌, any, Bytes, equal,
  Option-cases, inl, inr, ok, err, Error, arith, if◌then◌else◌, equal_refl,
}
use void_init.Os.Files.{File}
use void_init.Os.Memory.{Host, find}
use void_init.Vlog.Disk.Handles.{HandleLaws}
use void_init.Vlog.Disk.Memory.{
  memory_disk, memory_disk-DiskLaws, closed, opened, appended, content,
}

unfoldable pub printed : List Bytes → Bytes
printed [] = []
printed (x ∷ xs) = printed xs ++ x

closed-any : (p : Bytes) (handles : List Bytes) → any (equal p) (closed p handles) ≡ false
unfolding closed
closed-any p [] = refl
closed-any p (q ∷ handles) = ground (arith, closed-any p handles)

pub close-opened : (p : Bytes) (s : Host) → opened (memory_disk.close p s).1 p ≡ none
close-opened p s = rw (closed-any p s.handles)

appended-handles :
    (x : Bytes) (name : Option Bytes) (f : Option File) (h : Host)
    → (appended x name f h).1.handles ≡ h.handles
appended-handles x (some p) (some f) h = refl
appended-handles x (some p) none h = refl
appended-handles x none f h = refl

appended-logged :
    (x : Bytes) (name : Option Bytes) (f : Option File) (h : Host)
    → (appended x name f h).1.logged ≡ h.logged
appended-logged x (some p) (some f) h = refl
appended-logged x (some p) none h = refl
appended-logged x none f h = refl

module _ (p : Bytes) (s : Host) where
  pub removed-opened : (h : Bytes) → opened (memory_disk.remove p s).1 h ≡ opened s h
  removed-opened h = elim (Option-cases (find p s.files)) [ inl e ↦ rw e | inr (f, e) ↦ rw e ]

  pub renamed-opened : (q h : Bytes) → opened (memory_disk.rename p q s).1 h ≡ opened s h
  renamed-opened q h = elim (Option-cases (find p s.files)) [ inl e ↦ rw e | inr (f, e) ↦ rw e ]

  pub created-opened :
      {h : Bytes} {t : Host} → memory_disk.open_append p 0 s ≡ (ok h, t) → opened t h ≡ some p
  created-opened h = elim (Option-cases (find p s.files)) [
    | inl e ↦ ground (arith, equal_refl p)
    | inr (f, e) ↦ ground (arith, equal_refl p)
  ]

  pub created-ok :
      {e : Error} {t : Host} (h : Bytes)
      → memory_disk.open_append p 0 s ≡ (err e, t)
      → opened t h ≡ none
  created-ok h failed = elim (Option-cases (find p s.files)) [
    | inl e ↦ absurd (ground arith)
    | inr (f, e) ↦ absurd (ground arith)
  ]

  pub written-closed :
      (x q : Bytes) → opened s p ≡ none → content (memory_disk.write p x s).1 q ≡ content s q
  written-closed x q h = rw h

  pub written-opened : (x : Bytes) → opened (memory_disk.write p x s).1 p ≡ opened s p
  written-opened x =
      ap (λ hs. if any (equal p) hs then some p else none)
        (appended-handles x (opened s p) (find p s.files) s)

  pub removed-printed : printed (memory_disk.remove p s).1.logged ≡ printed s.logged
  removed-printed = elim (Option-cases (find p s.files)) [ inl e ↦ rw e | inr (f, e) ↦ rw e ]

  pub renamed-printed : (q : Bytes) → printed (memory_disk.rename p q s).1.logged ≡ printed s.logged
  renamed-printed q = elim (Option-cases (find p s.files)) [ inl e ↦ rw e | inr (f, e) ↦ rw e ]

  pub created-printed : printed (memory_disk.open_append p 0 s).1.logged ≡ printed s.logged
  created-printed = elim (Option-cases (find p s.files)) [ inl e ↦ rw e | inr (f, e) ↦ rw e ]

  pub written-printed : (x : Bytes) → printed (memory_disk.write p x s).1.logged ≡ printed s.logged
  written-printed x = ap printed (appended-logged x (opened s p) (find p s.files) s)

abbrev pub memory_disk-HandleLaws : HandleLaws memory_disk-DiskLaws
unfolding printed
memory_disk-HandleLaws = record {
  printed = λ s. printed s.logged;
  stderr-printed = λ x s. refl;
  stderr-content = λ x s q. refl;
  stderr-opened = λ x s h. refl;
  close-closed = λ h s. close-opened h s;
  remove-closed = λ p s h o. removed-opened p s h ∙ o;
  rename-closed = λ p q s h o. renamed-opened p s q h ∙ o;
  open-opened = λ p m s h. created-opened p s h;
  open-failed = λ p m s h f o. created-ok p s h f;
  write-closed = λ h x s q o. written-closed h s x q o;
  write-opened = λ h x s. written-opened h s x;
  close-printed = λ h s. refl;
  remove-printed = λ p s. removed-printed p s;
  rename-printed = λ p q s. renamed-printed p s q;
  open-printed = λ p m s. created-printed p s;
  write-printed = λ h x s. written-printed h s x;
  mkdir_all-printed = λ p m s. refl;
  mkdir_all-content = λ p m s q. refl;
}
