-- ===== src/Init/Runit/Tests.antt =====
-- Services that are enabled and disabled, on the host in memory.
use void_init.Base.{
  false, ◌≡◌, ◌≢◌, refl, ap, sym, ◌∙◌, none, some, List, [], ◌∷◌, Bytes, codes, equal, for_each,
  wrapping, ok, Option-cases, inl, inr, ◌>>=◌, arith,
}
use void_init.Os.Files.{File}
use void_init.Os.Memory.{Host, memory, find, put, delete}
use void_init.Os.Memory.Laws.{find-put_self, find-put_ne, find-delete_self, find-delete_ne}
use void_init.Init.Runit.{
  enable_service, link_service, disable_service, after_removal, service_link,
}
use void_init.Init.Runit.Laws.{LinkLaws, Command, enable, disable, perform, served, perform-served}

module _ (p : Bytes) (s : Host) where
  there : memory.lstat p s ≡ ok tt → (f : File) × (find p s.files ≡ some f)
  there h = elim (Option-cases (find p s.files)) [
    | inl e ↦ absurd (ground arith)
    | inr found ↦ found
  ]

  linked_to :
      (target : Bytes) {t : Host}
      → memory.symlink target p s ≡ (ok tt, t)
      → (find p s.files ≡ none)
        × (find p t.files ≡ some (record { content = target; mode = 0o777 }))
  linked_to target h = elim (Option-cases (find p s.files)) [
    | inl e ↦ (e, ap (λ r. find p r.1.files) (sym (rw e at h)) ∙ find-put_self p _ s.files)
    | inr (f, e) ↦ absurd (cc (ap (λ r. r.0) (rw e at h)))
  ]

  linked-other :
      (target q : Bytes) → q ≢ p → find q (memory.symlink target p s).1.files ≡ find q s.files
  linked-other target q ne = elim (Option-cases (find p s.files)) [
    | inl e ↦ rw e (find-put_ne p q _ s.files ne)
    | inr (f, e) ↦ rw e
  ]

  removed : find p (memory.remove p s).1.files ≡ none
  removed = elim (Option-cases (find p s.files)) [
    | inl e ↦ rw (e, e)
    | inr (f, e) ↦ rw (e, find-delete_self p s.files)
  ]

  removed-other : (q : Bytes) → q ≢ p → find q (memory.remove p s).1.files ≡ find q s.files
  removed-other q ne = elim (Option-cases (find p s.files)) [
    | inl e ↦ rw e
    | inr (f, e) ↦ rw (e, find-delete_ne p q s.files ne)
  ]

abbrev memory-LinkLaws : LinkLaws memory
memory-LinkLaws = record {
  Entry = File;
  link_to = λ target. record { content = target; mode = 0o777 };
  entry = λ h p. find p h.files;
  lstat-ok = λ p s h. there p s h;
  symlink-ok = λ target p s h. linked_to p s target h;
  symlink-frame = λ target p s q ne. linked-other p s target q ne;
  remove-ok = λ p s h. ap (λ r. find p r.1.files) (sym h) ∙ removed p s;
  remove-missing = λ p s h e. ap (λ r. find p r.1.files) (sym h) ∙ removed p s;
  remove-frame = λ p s q ne. removed-other p s q ne;
  is_log = λ p. false;
  log-entry = λ l m s p n. refl;
}

abbrev host : Host
host = record {
  files =
      (service_link (codes "sshd"), record { content = codes "/etc/sv/sshd"; mode = 0o777 }) ∷ [];
  path = [];
  commands = [];
  logged = [];
  time = 0;
  handles = [];
  owners = [];
}

abbrev commands : List Command
commands = enable (codes "dhcpcd") ∷ enable (codes "sshd") ∷ disable (codes "dhcpcd") ∷ []

after : Host
unfolding enable_service link_service disable_service after_removal codes equal find put delete
    wrapping ◌>>=◌ for_each
after = (for_each (perform memory) commands host).1

gone : find (service_link (codes "dhcpcd")) after.files ≡ none
unfolding after
gone = refl

perform-served_example :
    find (service_link (codes "sshd")) after.files
    ≡ served memory-LinkLaws commands (λ p. find p host.files) (service_link (codes "sshd"))
unfolding after
perform-served_example =
    perform-served memory-LinkLaws commands host (service_link (codes "sshd")) refl refl
