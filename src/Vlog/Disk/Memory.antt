-- ===== src/Vlog/Disk/Memory.antt =====
-- A disk in memory, for the tests of the log: the host of `Os.Memory`, with names as handles.
pub mod Handles
use mathlib.Core.Option
use void_init.Base.{
  ℕ, ◌≡◌, ◌≢◌, refl, ap, sym, ◌∙◌, Option, none, some, [], ◌∷◌, ◌++◌, Bytes, codes, length, equal,
  equal_iff, equal_refl, List, any, if◌then◌else◌, arith, Bool-cases, ok, err, Error, not_exist,
  Result, Option-cases, inl, inr,
}
use void_init.Os.Files.{File}
use void_init.Os.Memory.{Host, Files, find, put, delete}
use void_init.Os.Memory.Laws.{find-put_self, find-put_ne, find-delete_self, find-delete_ne}
use void_init.Vlog.Disk.{Disk, DiskLaws}

abbrev text : Bytes → File
text c = record { content = c; mode = 0o644 }

abbrev with : Host → Files → Host
with h files = record h { files = files }

abbrev moved : Bytes → Bytes → Option File → Host → Result (Unit {0}) × Host
moved p q none h = (err (not_exist (codes "no such file")), h)
moved p q (some f) h = (ok tt, with h (put q f (delete p h.files)))

abbrev removed : Bytes → Option File → Host → Result (Unit {0}) × Host
removed p none h = (err (not_exist (codes "no such file")), h)
removed p (some f) h = (ok tt, with h (delete p h.files))

abbrev created : Bytes → Option File → Host → Result Bytes × Host
created p none h = (ok p, record h { files = put p (text []) h.files; handles = p ∷ h.handles })
created p (some f) h = (ok p, record h { handles = p ∷ h.handles })

-- The handles without those of a name.
unfoldable pub closed : Bytes → List Bytes → List Bytes
closed p [] = []
closed p (q ∷ handles) = let rest = closed p handles in if equal p q then rest else q ∷ rest

abbrev pub opened : Host → Bytes → Option Bytes
opened h p = if any (equal p) h.handles then some p else none

abbrev appended : Bytes → Option Bytes → Option File → Host → (ℕ × Result (Unit {0})) × Host
appended x (some p) (some f) h = ((length x, ok tt), with h (put p (text (f.content ++ x)) h.files))
appended x _ _ h = ((0, err (not_exist (codes "bad file descriptor"))), h)

abbrev pub memory_disk : Disk
memory_disk = record {
  State = Host;
  Handle = Bytes;
  mkdir_all = λ p m h. (ok tt, h);
  stat_size = λ p h. elim (find p h.files) [
    | none ↦ err (not_exist (codes "no such file"))
    | some f ↦ ok (length f.content)
  ];
  remove = λ p h. removed p (find p h.files) h;
  rename = λ p q h. moved p q (find p h.files) h;
  open_append = λ p m h. created p (find p h.files) h;
  handle_size = λ p h. elim (find p h.files) [
    | none ↦ err (not_exist (codes "no such file"))
    | some f ↦ ok (length f.content)
  ];
  write = λ p x h. appended x (opened h p) (find p h.files) h;
  close = λ p h. (ok tt, record h { handles = closed p h.handles });
  stderr = λ x h. record h { logged = x ∷ h.logged };
  hostname = λ h. ok (codes "vm");
  timestamp = λ h. codes "Jan  1 00:00:00";
  getpid = λ h. 1;
}

abbrev pub content : Host → Bytes → Option Bytes
content h p = Option.map File.content (find p h.files)

module _ (s : Host) where
  pub remove-gone : (p : Bytes) → content (memory_disk.remove p s).1 p ≡ none
  remove-gone p = elim (Option-cases (find p s.files)) [
    | inl e ↦ rw (e, e)
    | inr (f, e) ↦ rw (e, find-delete_self p s.files)
  ]

  pub remove-other : (p q : Bytes) → q ≢ p → content (memory_disk.remove p s).1 q ≡ content s q
  remove-other p q ne = elim (Option-cases (find p s.files)) [
    | inl e ↦ rw e
    | inr (f, e) ↦ rw (e, find-delete_ne p q s.files ne)
  ]

  pub rename-there :
      (p q : Bytes) {t : Host}
      → q ≢ p
      → memory_disk.rename p q s ≡ (ok tt, t)
      → (content t q ≡ content s p) × (content t p ≡ none)
  rename-there p q ne h = elim (Option-cases (find p s.files)) [
    | inl e ↦ ground arith
    | inr (f, e) ↦ ground (
      arith,
      find-put_self q f (delete p s.files),
      find-put_ne q p f (delete p s.files),
      find-delete_self p s.files,
      λ (x : p ≡ q). ne (sym x),
    )
  ]

  pub rename-gone :
      (p q : Bytes) {e : Error} {t : Host}
      → memory_disk.rename p q s ≡ (err e, t)
      → (content s p ≡ none) × (content t p ≡ content s p) × (content t q ≡ content s q)
  rename-gone p q h = elim (Option-cases (find p s.files)) [
    | inl e ↦ ground arith
    | inr (f, e) ↦ ground arith
  ]

  pub rename-other :
      (p q r : Bytes) → r ≢ p → r ≢ q → content (memory_disk.rename p q s).1 r ≡ content s r
  rename-other p q r a b = elim (Option-cases (find p s.files)) [
    | inl e ↦ rw e
    | inr (f, e) ↦ rw (e, find-put_ne q r f (delete p s.files) b, find-delete_ne p r s.files a)
  ]

  opened-some : (h : Bytes) {p : Bytes} → opened s h ≡ some p → (h ≡ p) × (opened s h ≡ some h)
  opened-some h o = elim (Bool-cases (any (equal h) s.handles)) [
    | inl there ↦ (ground arith, rw there)
    | inr closed ↦ absurd (ground arith)
  ]

  pub open-new :
      (p : Bytes) {h : Bytes} {t : Host}
      → memory_disk.open_append p 0 s ≡ (ok h, t)
      → content s p ≡ none
      → (content t p ≡ some []) × (opened t h ≡ some p)
  open-new p h free = elim (Option-cases (find p s.files)) [
    | inl e ↦ ground (arith, equal_refl p, find-put_self p (text []) s.files)
    | inr (f, e) ↦ ground arith
  ]

  pub open-other : (p q : Bytes) → q ≢ p → content (memory_disk.open_append p 0 s).1 q ≡ content s q
  open-other p q ne = elim (Option-cases (find p s.files)) [
    | inl e ↦ rw (e, find-put_ne p q (text []) s.files ne)
    | inr (f, e) ↦ rw e
  ]

  pub write-there :
      (h x : Bytes) {p c : Bytes} {n : ℕ} {t : Host}
      → opened s h ≡ some p
      → content s p ≡ some c
      → memory_disk.write h x s ≡ ((n, ok tt), t)
      → (n ≡ length x) × (content t p ≡ some (c ++ x)) × (opened t h ≡ some p)
  write-there h x {p} {c} o was w = elim (Option-cases (find h s.files)) [
    | inl e ↦ ground arith
    | inr (f, e) ↦ ground (arith, find-put_self h (text (f.content ++ x)) s.files)
  ]

  pub write-other :
      (h x : Bytes) {p : Bytes} (q : Bytes)
      → opened s h ≡ some p
      → q ≢ p
      → content (memory_disk.write h x s).1 q ≡ content s q
  write-other h x {p} q o ne =
      let (same, there) = opened-some h o in
      elim (Option-cases (find h s.files)) [
        | inl e ↦ rw (there, e)
        | inr (f, e) ↦
            rw (there, e, find-put_ne h q (text (f.content ++ x)) s.files (λ z. ne (z ∙ same)))
      ]

abbrev pub memory_disk-DiskLaws : DiskLaws memory_disk
memory_disk-DiskLaws = record {
  content = content;
  opened = opened;
  remove-ok = λ p s h. ap (λ r. content r.1 p) (sym h) ∙ remove-gone s p;
  remove-missing = λ p s h e. ap (λ r. content r.1 p) (sym h) ∙ remove-gone s p;
  remove-frame = λ p s q ne. remove-other s p q ne;
  rename-ok = λ p q s ne h. rename-there s p q ne h;
  rename-missing = λ p q s d h e. rename-gone s p q h;
  rename-frame = λ p q s r a b. rename-other s p q r a b;
  open-created = λ p m s h free. open-new s p h free;
  open-frame = λ p m s q ne. open-other s p q ne;
  write-ok = λ h x s o was w. write-there s h x o was w;
  write-frame = λ h x s q o ne. write-other s h x q o ne;
  close-frame = λ h s q. refl;
}
