-- ===== src/Init/Runit/Laws.antt =====
-- cmd/void-init/runit.go: what enabling and disabling a service leaves.
use void_init.Base.{
  ◌≡◌, ◌≢◌, refl, ap, sym, ◌∙◌, Bool, true, false, Bool-cases, inl, inr, Option, none, some, ◌++◌,
  Bytes, codes, equal, equal_iff, equal-ne, List, [], ◌∷◌, Exec, for_each, if◌then◌else◌, Error,
  is_not_exist, ok, err, wrapping,
}
use void_init.Base.Effects.Laws.{bind-eq-ok, wrapping-eq-ok, Result-cases}
use void_init.Os.{Os, log_info}
use void_init.Vlog.Level.{Level}
use void_init.Init.Runit.{
  sv_dir, service_link, enable_service, link_service, disable_service, after_removal,
}

-- The documented behaviour of `Lstat`, `Symlink` and `Remove`, for what stands at a path.
pub record LinkLaws (O : Os) : Type 1 where
  pub Entry : Type 0
  pub link_to : Bytes → Entry
  pub entry : O.State → Bytes → Option Entry
  pub lstat-ok :
      (p : Bytes) (s : O.State) → O.lstat p s ≡ ok tt → (e : Entry) × (entry s p ≡ some e)
  pub symlink-ok :
      (target p : Bytes) (s : O.State) {t : O.State}
      → O.symlink target p s ≡ (ok tt, t)
      → (entry s p ≡ none) × (entry t p ≡ some (link_to target))
  pub symlink-frame :
      (target p : Bytes) (s : O.State) (q : Bytes)
      → q ≢ p
      → entry (O.symlink target p s).1 q ≡ entry s q
  pub remove-ok :
      (p : Bytes) (s : O.State) {t : O.State} → O.remove p s ≡ (ok tt, t) → entry t p ≡ none
  pub remove-missing :
      (p : Bytes) (s : O.State) {e : Error} {t : O.State}
      → O.remove p s ≡ (err e, t)
      → is_not_exist e ≡ true
      → entry t p ≡ none
  pub remove-frame :
      (p : Bytes) (s : O.State) (q : Bytes) → q ≢ p → entry (O.remove p s).1 q ≡ entry s q
  -- The paths where the logger makes and renames its files.
  pub is_log : Bytes → Bool
  pub log-entry :
      (l : Level) (m : Bytes) (s : O.State) (p : Bytes)
      → is_log p ≡ false
      → entry (O.log l m s) p ≡ entry s p

-- What the program asks of a service.
pub data Command : Type 0 where
  enable disable : Bytes → Command

abbrev pub perform : (O : Os) → Command → Exec O.State (Unit {0})
perform O (enable name) = enable_service O name
perform O (disable name) = disable_service O name

module _ {O : Os} (L : LinkLaws O) where
  -- What stands at the link of a service that is enabled: what was there, or a link.
  abbrev pub enabled : Bytes → Option L.Entry → L.Entry
  enabled name none = L.link_to (sv_dir ++ codes "/" ++ name)
  enabled name (some e) = e

  -- `t` differs from `s` at one path at most, but for the logger's.
  abbrev pub SameBut : Bytes → O.State → O.State → Type 0
  SameBut path s t = (q : Bytes) → q ≢ path → L.is_log q ≡ false → L.entry t q ≡ L.entry s q

  link_service-entry :
      (name : Bytes) (s : O.State) {t : O.State}
      → link_service O name s ≡ (ok tt, t)
      → (L.is_log (service_link name) ≡ false → L.entry s (service_link name) ≡ none)
        × (L.entry t (service_link name) ≡ some (enabled name none))
        × SameBut (service_link name) s t
  unfolding link_service wrapping
  link_service-entry name s h =
      let (_, a, logged, linked) = bind-eq-ok _ _ s h in
      let target = sv_dir ++ codes "/" ++ name in
      let link = service_link name in
      let (free, there) =
        L.symlink-ok target link a
          (wrapping-eq-ok (codes "enable service " ++ name) (O.symlink target link) a linked) in
      let before = λ (q : Bytes) (n : L.is_log q ≡ false).
        ap (λ r. L.entry r.1 q) (sym logged) ∙ L.log-entry _ _ s q n in
      (
        λ n. sym (before link n) ∙ free,
        there,
        λ q ne n.
            ap (λ r. L.entry r.1 q) (sym linked) ∙ L.symlink-frame target link a q ne ∙ before q n,
      )

  enable_service-entry :
      (name : Bytes) (s : O.State) {t : O.State}
      → enable_service O name s ≡ (ok tt, t)
      → (L.is_log (service_link name) ≡ false
          → L.entry t (service_link name) ≡ some (enabled name (L.entry s (service_link name))))
        × SameBut (service_link name) s t
  unfolding enable_service
  enable_service-entry name s h = elim (Result-cases (O.lstat (service_link name) s)) [
    | inl (_, e) ↦
        let (old, there) = L.lstat-ok (service_link name) s e in
        let quiet = λ (q : Bytes) (n : L.is_log q ≡ false).
          ap (λ r. L.entry r.1 q) (sym (rw (e, enable_service) at h)) ∙ L.log-entry _ _ s q n in
        (λ n. quiet (service_link name) n ∙ there ∙ rw there refl, λ q ne n. quiet q n)
    | inr (why, e) ↦
        let (free, there, others) = link_service-entry name s (rw (e, enable_service) at h) in
        (λ n. there ∙ rw (free n) refl, others)
  ]

  -- The line in the log behind a removal.
  removed_and_logged :
      (link m : Bytes) (s : O.State) {t : O.State}
      → L.entry (O.remove link s).1 link ≡ none
      → log_info O m (O.remove link s).1 ≡ (ok tt, t)
      → (L.is_log link ≡ false → L.entry t link ≡ none) × SameBut link s t
  removed_and_logged link m s gone h =
      let quiet = λ (q : Bytes) (n : L.is_log q ≡ false).
        ap (λ r. L.entry r.1 q) (sym h) ∙ L.log-entry _ m _ q n in
      (λ n. quiet link n ∙ gone, λ q ne n. quiet q n ∙ L.remove-frame link s q ne)

  disable_service-entry :
      (name : Bytes) (s : O.State) {t : O.State}
      → disable_service O name s ≡ (ok tt, t)
      → (L.is_log (service_link name) ≡ false → L.entry t (service_link name) ≡ none)
        × SameBut (service_link name) s t
  unfolding disable_service after_removal
  disable_service-entry name s {t} h =
      let link = service_link name in
      let left = (O.remove link s).1 in
      elim (Result-cases (O.remove link s).0) [
        | inl (_, e) ↦
            removed_and_logged link _ s (L.remove-ok link s (λ i. (e i, left)))
              (rw (e, disable_service) at h)
        | inr (why, e) ↦ elim (Bool-cases (is_not_exist why)) [
          | inl missing ↦
              removed_and_logged link _ s (L.remove-missing link s (λ i. (e i, left)) missing)
                (rw (e, missing, disable_service) at h)
          | inr other ↦ absurd (cc (ap (λ r. r.0) (rw (e, other, disable_service) at h)))
        ]
      ]

  -- What a list of commands makes of the entries.
  unfoldable pub served : List Command → (Bytes → Option L.Entry) → Bytes → Option L.Entry
  served [] entries = entries
  served (enable name ∷ commands) entries =
      served commands
        (λ q. if equal q (service_link name) then some (enabled name (entries q)) else entries q)
  served (disable name ∷ commands) entries =
      served commands (λ q. if equal q (service_link name) then none else entries q)

  served-ap :
      (commands : List Command) (entries others : Bytes → Option L.Entry) (q : Bytes)
      → entries q ≡ others q
      → served commands entries q ≡ served commands others q
  unfolding served
  served-ap [] entries others q h = h
  served-ap (enable name ∷ commands) entries others q h =
      served-ap commands _ _ q
        (ap (λ e. if equal q (service_link name) then some (enabled name e) else e) h)
  served-ap (disable name ∷ commands) entries others q h =
      served-ap commands _ _ q (ap (λ e. if equal q (service_link name) then none else e) h)

  -- One entry, where a step gives the link's and leaves the others.
  at_link :
      (link : Bytes) (s t : O.State) (e : Bytes → Option L.Entry) (q : Bytes)
      → L.is_log q ≡ false
      → (L.is_log link ≡ false → L.entry t link ≡ e link)
      → SameBut link s t
      → L.entry t q ≡ (if equal q link then e q else L.entry s q)
  at_link link s t e q n there others = elim (Bool-cases (equal q link)) [
    | inl same ↦
        let here = (equal_iff q link).0 same in
        ap (L.entry t) here
        ∙ there (ap L.is_log (sym here) ∙ n)
        ∙ ap e (sym here)
        ∙ ap (λ b. if b then e q else L.entry s q) (sym same)
    | inr other ↦
        others q (equal-ne q link other) n ∙ ap (λ b. if b then e q else L.entry s q) (sym other)
  ]

  -- Any commands that succeed, one behind the other, leave at each path that is not the logger's
  -- what the list says: a service that is enabled has the entry that it had, or else a link to its
  -- definition, one that is disabled has none, and nothing else changes.
  pub perform-served :
      (commands : List Command) (s : O.State) {t : O.State} (q : Bytes)
      → L.is_log q ≡ false
      → for_each (perform O) commands s ≡ (ok tt, t)
      → L.entry t q ≡ served commands (L.entry s) q
  unfolding for_each served
  perform-served [] s q n h = ap (λ r. L.entry r.1 q) (sym h)
  perform-served (enable name ∷ commands) s q n h =
      let (_, a, first, rest) = bind-eq-ok (enable_service O name) _ s h in
      let (there, others) = enable_service-entry name s first in
      perform-served commands a q n rest
      ∙ served-ap commands (L.entry a) _ q (
          at_link (service_link name) s a (λ q. some (enabled name (L.entry s q))) q n there others)
  perform-served (disable name ∷ commands) s q n h =
      let (_, a, first, rest) = bind-eq-ok (disable_service O name) _ s h in
      let (there, others) = disable_service-entry name s first in
      perform-served commands a q n rest
      ∙ served-ap commands (L.entry a) _ q
          (at_link (service_link name) s a (λ _. none) q n there others)
