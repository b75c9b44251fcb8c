-- ===== src/Initfs/Cleanup/Race/Laws.antt =====
-- In every interleaving a callback runs as often as it was registered at most.
use void_init.Base.{
  ℕ, zero, suc, ◌+◌, ◌≡◌, refl, ap, some, List, [], ◌∷◌, ◌++◌, ◌==◌, length, get_elem?, take, arith,
  if◌then◌else◌,
}
use void_init.Initfs.Cleanup.Race.{
  Lock, free, held, Race, Quiet, enter_deferred, enter_handler, call, leave_deferred, leave_handler,
  finish, exit, Step, register, quiet, Reach, start, later,
}

-- How often the number stands in the list.
abbrev pub count : ℕ → List ℕ → ℕ
count x [] = 0
count x (y ∷ ys) = let rest = count x ys in if y == x then suc rest else rest

-- The callbacks that wait for the unwinding that runs, or for the next.
abbrev pub waiting : Lock → List ℕ → List ℕ
waiting free fns = fns
waiting (held t i) fns = take i fns

pub count-append : (x : ℕ) (xs ys : List ℕ) → count x (xs ++ ys) ≡ count x xs + count x ys
count-append x [] ys = omega arith
count-append x (y ∷ xs) ys = ground (arith, count-append x xs ys)

pub take-length : (xs : List ℕ) → take (length xs) xs ≡ xs
take-length [] = refl
take-length (x ∷ xs) = ap (◌∷◌ x) (take-length xs)

pub take-get_elem? :
    (xs : List ℕ) (i f : ℕ) → get_elem? xs i ≡ some f → take (suc i) xs ≡ take i xs ++ f ∷ []
take-get_elem? [] i f h = cc
take-get_elem? (x ∷ xs) zero f h = cc
take-get_elem? (x ∷ xs) (suc i) f h = ap (◌∷◌ x) (take-get_elem? xs i f h)

-- The callbacks that ran and those that wait are those that were registered.
abbrev Balanced : ℕ → Race → Type 0
Balanced x r = count x r.ran + count x (waiting r.lock r.fns) ≡ count x r.registered

Quiet-Balanced : (x : ℕ) (r t : Race) → Balanced x r → Quiet r t → Balanced x t
Quiet-Balanced x r t h (enter_deferred _ unlocked _) =
    ground (arith, rw unlocked at h, take-length r.fns)
Quiet-Balanced x r t h (enter_handler _ unlocked _) =
    ground (arith, rw unlocked at h, take-length r.fns)
Quiet-Balanced x r t h (call u i f _ mine there) = ground (
  arith,
  rw mine at h,
  take-get_elem? r.fns i f there,
  count-append x r.ran (f ∷ []),
  count-append x (take i r.fns) (f ∷ []),
)
Quiet-Balanced x r t h (leave_deferred _ mine _) = ground (arith, rw mine at h)
Quiet-Balanced x r t h (leave_handler _ mine _) = ground (arith, rw mine at h)
Quiet-Balanced x r t h (finish _ _) = h
Quiet-Balanced x r t h (exit _ _) = h

Step-Balanced : (x : ℕ) (r t : Race) → Balanced x r → Step r t → Balanced x t
Step-Balanced x r t h (register f _ unlocked _) =
    ground
      (arith, rw unlocked at h, count-append x r.fns (f ∷ []), count-append x r.registered (f ∷ []))
Step-Balanced x r t h (quiet step) = Quiet-Balanced x r t h step

-- Whatever the order of the steps, each callback ran and waits as often, taken together, as it was
-- registered: none runs more often than that, and none leaves the stack without a run.
pub Reach-Balanced :
    (x : ℕ) (r : Race)
    → Reach r
    → count x r.ran + count x (waiting r.lock r.fns) ≡ count x r.registered
Reach-Balanced x r start = refl
Reach-Balanced x r (later {r = q} before step) =
    Step-Balanced x q r (Reach-Balanced x q before) step
