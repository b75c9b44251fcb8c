-- ===== src/Initfs/Cleanup/Laws.antt =====
-- The stack runs its callbacks in the reverse order of their registration.
use void_init.Base.{
  ℕ, zero, suc, ◌≤◌, ◌≡◌, refl, ap, ◌∙◌, some, List, [], ◌∷◌, ◌++◌, length, Option-cases, inl, inr,
  get_elem?, arith,
}
use void_init.Initfs.Cleanup.{Session, push, run_below, unwind}

module _ {S : Type 0} where
  get_elem?-append :
      (fns : List (S → S)) (f : S → S) (i : ℕ)
      → suc i ≤ length fns
      → get_elem? (fns ++ f ∷ []) i ≡ get_elem? fns i
  get_elem?-append [] f i h = absurd (omega (arith, h))
  get_elem?-append (g ∷ fns) f zero h = refl
  get_elem?-append (g ∷ fns) f (suc i) h = get_elem?-append fns f i (omega (arith, h))

  get_elem?-last :
      (fns : List (S → S)) (f : S → S) → get_elem? (fns ++ f ∷ []) (length fns) ≡ some f
  get_elem?-last [] f = refl
  get_elem?-last (g ∷ fns) f = get_elem?-last fns f

  -- A callback above the index does not run.
  run_below-append :
      (i : ℕ) (fns : List (S → S)) (f : S → S) (s : S)
      → i ≤ length fns
      → run_below i (fns ++ f ∷ []) s ≡ run_below i fns s
  unfolding run_below
  run_below-append zero fns f s h = refl
  run_below-append (suc i) fns f s h = elim (Option-cases (get_elem? fns i)) [
    | inl e ↦ ground (arith, get_elem?-append fns f i h)
    | inr (g, e) ↦
        ground
          (arith, get_elem?-append fns f i h, run_below-append i fns f (g s) (omega (arith, h)))
  ]

  run_below-last :
      (fns : List (S → S)) (f : S → S) (s : S)
      → run_below (suc (length fns)) (fns ++ f ∷ []) s ≡ run_below (length fns) fns (f s)
  unfolding run_below
  run_below-last fns f s =
      rw (run_below, get_elem?-last fns f) (run_below-append (length fns) fns f (f s) (omega arith))

  length-snoc : (fns : List (S → S)) (f : S → S) → length (fns ++ f ∷ []) ≡ suc (length fns)
  length-snoc [] f = refl
  length-snoc (g ∷ fns) f = ap suc (length-snoc fns f)

  -- The last callback that was registered runs first, and then the others as without it.
  pub unwind-push :
      (f : S → S) (w : Session S) → unwind (push f w) ≡ unwind (record w { host = f w.host })
  unfolding unwind push
  unwind-push f w =
      ap (λ (h : S). record { host = h; fns = [] })
        (ap (λ n. run_below n (w.fns ++ f ∷ []) w.host) (length-snoc w.fns f)
          ∙ run_below-last w.fns f w.host)

  again :
      (f : S → S) (h : S) (w : Session S)
      → unwind (record { host = h; fns = w.fns ++ f ∷ [] }) ≡ unwind (record w { host = f h })
  unfolding push
  again f h w = unwind-push f (record w { host = h })

  -- Applies the callbacks of a list from its end to its start.
  abbrev pub last_first : List (S → S) → S → S
  last_first [] s = s
  last_first (f ∷ fns) s = f (last_first fns s)

  abbrev pub pushed : List (S → S) → Session S → Session S
  pushed [] w = w
  pushed (f ∷ fns) w = pushed fns (push f w)

  pushed-last_first :
      (fns : List (S → S)) (w : Session S)
      → unwind (pushed fns w) ≡ unwind (record w { host = last_first fns w.host })
  unfolding push
  pushed-last_first [] w = refl
  pushed-last_first (f ∷ fns) w =
      pushed-last_first fns (push f w) ∙ again f (last_first fns w.host) w

  -- Callbacks that are registered one by one run in the opposite order, then those that were on
  -- the stack before, and a second unwinding changes nothing.
  pub unwind-pushed :
      (fns : List (S → S)) (w : Session S)
      → (unwind (pushed fns w) ≡ unwind (record w { host = last_first fns w.host }))
        × (unwind (unwind (pushed fns w)) ≡ unwind (pushed fns w))
  unfolding unwind run_below
  unwind-pushed fns w = (pushed-last_first fns w, refl)
