-- ===== src/Initfs/Cleanup/Tests.antt =====
-- The stack on callbacks that note a number.
use void_init.Base.{ℕ, ◌≡◌, refl, List, [], ◌∷◌}
use void_init.Initfs.Cleanup.{Session, push, run_below, unwind}
use void_init.Initfs.Cleanup.Laws.{pushed}

abbrev session : Session (List ℕ)
session = record { host = []; fns = (λ s. 0 ∷ s) ∷ [] }

abbrev noting : List (List ℕ → List ℕ)
noting = (λ s. 1 ∷ s) ∷ (λ s. 2 ∷ s) ∷ []

unwound : unwind (pushed noting session) ≡ record { host = 0 ∷ 1 ∷ 2 ∷ []; fns = [] }
unfolding unwind push run_below
unwound = refl
