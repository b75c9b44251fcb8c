-- ===== src/Os/Memory/Owners.antt =====
-- The owners of the paths of the host in memory.
use void_init.Base.{
  ℕ, ◌≡◌, ◌≢◌, refl, ap, sym, ◌∙◌, Option, none, some, List, [], ◌∷◌, Bytes, equal, equal_iff,
  equal_refl, Option-cases, inl, inr, arith, if◌then◌else◌,
}
use void_init.Text.Atoi.{ℤ, pos}
use void_init.Os.Files.Owners.{OwnerLaws}
use void_init.Os.Memory.{Host, find, memory}
use void_init.Os.Memory.Laws.{memory-FileLaws}

unfoldable pub owner_in : Bytes → List (Bytes × (ℤ × ℤ)) → Option (ℤ × ℤ)
owner_in p [] = none
owner_in p ((q, ids) ∷ owners) = if equal q p then some ids else owner_in p owners

module _ (p : Bytes) (s : Host) where
  pub own_self : (u g : ℤ) → owner_in p ((p, (u, g)) ∷ s.owners) ≡ some (u, g)
  unfolding owner_in
  own_self u g = rw (equal_refl p)

  pub own_other :
      (u g : ℤ) (q : Bytes) → q ≢ p → owner_in q ((p, (u, g)) ∷ s.owners) ≡ owner_in q s.owners
  unfolding owner_in
  own_other u g q ne = ground (arith, equal_iff p q)

  pub chmod-owners :
      (m : ℕ) (q : Bytes) → owner_in q (memory.chmod p m s).1.owners ≡ owner_in q s.owners
  chmod-owners m q = elim (Option-cases (find p s.files)) [ inl e ↦ rw e | inr (f, e) ↦ rw e ]

abbrev pub memory-OwnerLaws : OwnerLaws memory-FileLaws
memory-OwnerLaws = record {
  owner = λ h p. owner_in p h.owners;
  chown-ok = λ p m n s h. ap (λ r. owner_in p r.1.owners) (sym h) ∙ own_self p s (pos m) (pos n);
  chown-frame = λ p u g s q ne. own_other p s u g q ne;
  chown-file = λ p u g s low h. h;
  chown-other = λ p u g s q ne. refl;
  write_file-owner = λ p c m s q ne. refl;
  chmod-owner = λ p m s q. chmod-owners p s m q;
  log-owner = λ l m s q n. refl;
}
