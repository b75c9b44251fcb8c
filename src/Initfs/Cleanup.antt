-- ===== src/Initfs/Cleanup.antt =====
-- cmd/void-initfs/cleanup.go: the stack of callbacks that undo what a build did to the host. A
-- callback changes the host and returns nothing.
pub mod Laws
pub mod Pushes
pub mod Race
mod Tests
use void_init.Base.{ℕ, zero, suc, Option, none, some, List, [], ◌∷◌, ◌++◌, length, get_elem?, Exec}

-- The host and the stack's `fns`, which all parts of one build share.
pub record Session (S : Type 0) : Type 0 where
  pub host : S
  pub fns : List (S → S)

module _ {S : Type 0} where
  -- A call that does not touch the stack.
  unfoldable pub on_host : {A : Type 0} → Exec S A → Exec (Session S) A
  on_host m w = let (r, h) = m w.host in (r, record w { host = h })

  -- `push`
  unfoldable pub push : (S → S) → Session S → Session S
  push f w = record w { fns = w.fns ++ f ∷ [] }

  -- The loop of `unwind` from the index below `i` down to 0; an index out of range panics.
  unfoldable pub run_below : ℕ → List (S → S) → S → S
  run_below zero fns s = s
  run_below (suc i) fns s = elim (get_elem? fns i) [ none ↦ s | some f ↦ run_below i fns (f s) ]

  -- `unwind`
  unfoldable pub unwind : Session S → Session S
  unfolding run_below
  unwind w = record { host = run_below (length w.fns) w.fns w.host; fns = [] }
