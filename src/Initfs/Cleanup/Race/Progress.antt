-- ===== src/Initfs/Cleanup/Race/Progress.antt =====
-- However the threads are scheduled, the process ends once the build registers nothing more.
use void_init.Base.{
  ℕ, zero, suc, ◌+◌, ◌≤◌, ◌≡◌, ◌⊎◌, inl, inr, refl, Bool, true, false, Bool-cases, subst, some,
  List, [], ◌∷◌, ◌++◌, length, get_elem?, arith,
}
use void_init.Initfs.Cleanup.Race.{
  Thread, deferred, handler, Phase, ahead, inside, behind, Lock, free, held, Race, Quiet,
  enter_deferred, enter_handler, call, leave_deferred, leave_handler, finish, exit, register, quiet,
  Reach, start, later,
}

-- Any number of steps, one behind the other, that register nothing.
pub data Run : ℕ → Race → Race → Type 0 where
  stop : {r : Race} → Run 0 r r
  next : {n : ℕ} {r q t : Race} → Quiet r q → Run n q t → Run (suc n) r t

Run-Reach : {n : ℕ} {r t : Race} → Reach r → Run n r t → Reach t
Run-Reach before stop = before
Run-Reach before (next step more) = Run-Reach (later before (quiet step)) more

abbrev weight : Phase → ℕ
weight ahead = 2
weight inside = 1
weight behind = 0

abbrev pub calls_left : Lock → List ℕ → ℕ
calls_left free fns = length fns
calls_left (held t i) fns = i

abbrev alive : Bool → ℕ
alive true = 0
alive false = 1

-- How many steps there are until the process has ended and each thread is behind its unwinding: the
-- calls of the callbacks, the two entries, the two ends, and the end of the process.
abbrev pub steps_left : Race → ℕ
steps_left r = weight r.main + weight r.signal + calls_left r.lock r.fns + alive r.ended

Quiet-steps_left : (r t : Race) → Quiet r t → suc (steps_left t) ≡ steps_left r
Quiet-steps_left r t (enter_deferred on unlocked here) = rw (on, unlocked, here) (omega arith)
Quiet-steps_left r t (enter_handler on unlocked here) = rw (on, unlocked, here) (omega arith)
Quiet-steps_left r t (call u i f on mine there) = rw (on, mine) (omega arith)
Quiet-steps_left r t (leave_deferred on mine here) = rw (on, mine, here) (omega arith)
Quiet-steps_left r t (leave_handler on mine here) = rw (on, mine, here) (omega arith)
Quiet-steps_left r t (finish on here) = rw (on, here) (omega arith)
Quiet-steps_left r t (exit on here) = rw (on, here) (omega arith)

Run-steps_left : (n : ℕ) (r t : Race) → Run n r t → n + steps_left t ≡ steps_left r
Run-steps_left n r t stop = omega arith
Run-steps_left (suc n) r t (next {q = q} step more) =
    omega (arith, Run-steps_left n q t more, Quiet-steps_left r q step)

-- The thread that holds the mutex is in its unwinding, with an index in the range of the callbacks;
-- `run` is there only with the mutex.
abbrev Held : Lock → List ℕ → (main signal : Phase) → Type 0
Held free fns main signal = (main ≡ ahead) ⊎ (main ≡ behind)
Held (held deferred i) fns main signal = (i ≤ length fns) × (main ≡ inside)
Held (held handler i) fns main signal =
    (i ≤ length fns) × (signal ≡ inside) × ((main ≡ ahead) ⊎ (main ≡ behind))

abbrev HeldIn : Lock → Race → Type 0
HeldIn l r = Held l r.fns r.main r.signal

called :
    (u : Thread) (i f : ℕ) (r : Race)
    → HeldIn (held u (suc i)) r
    → HeldIn (held u i) (record r { lock = held u i; ran = r.ran ++ f ∷ [] })
called deferred i f r (range, here) = (omega (arith, range), here)
called handler i f r (range, here, other) = (omega (arith, range), here, other)

Quiet-Held : (r t : Race) → HeldIn r.lock r → Quiet r t → HeldIn t.lock t
Quiet-Held r t h (enter_deferred on unlocked here) = (omega arith, refl)
Quiet-Held r t h (enter_handler on unlocked here) =
    (omega arith, refl, subst (λ l. HeldIn l r) unlocked h)
Quiet-Held r t h (call u i f on mine there) = called u i f r (subst (λ l. HeldIn l r) mine h)
Quiet-Held r t h (leave_deferred on mine here) = inr refl
Quiet-Held r t h (leave_handler on mine here) =
    let (_, _, other) = subst (λ l. HeldIn l r) mine h in other
Quiet-Held r t h (finish on here) = h
Quiet-Held r t h (exit on here) = h

Reach-Held : (r : Race) → Reach r → HeldIn r.lock r
Reach-Held r start = inl refl
Reach-Held r (later {r = q} before (register f on unlocked here)) = rw unlocked (inl here)
Reach-Held r (later {r = q} before (quiet step)) = Quiet-Held q r (Reach-Held q before) step

get_elem?-some : (xs : List ℕ) (i : ℕ) → suc i ≤ length xs → (x : ℕ) × (get_elem? xs i ≡ some x)
get_elem?-some [] i h = absurd (omega (arith, h))
get_elem?-some (x ∷ xs) zero h = (x, refl)
get_elem?-some (x ∷ xs) (suc i) h = get_elem?-some xs i (omega (arith, h))

-- A thread can take a step.
abbrev pub CanStep : Race → Type 0
CanStep r = (t : Race) × Quiet r t

held-CanStep :
    (u : Thread) (i : ℕ) (r : Race)
    → r.ended ≡ false
    → r.lock ≡ held u i
    → HeldIn (held u i) r
    → CanStep r
held-CanStep deferred zero r on mine (_, here) = (_, leave_deferred on mine here)
held-CanStep handler zero r on mine (_, here, _) = (_, leave_handler on mine here)
held-CanStep deferred (suc i) r on mine (range, _) =
    let (f, there) = get_elem?-some r.fns i range in (_, call deferred i f on mine there)
held-CanStep handler (suc i) r on mine (range, _, _) =
    let (f, there) = get_elem?-some r.fns i range in (_, call handler i f on mine there)

lock-CanStep : (l : Lock) (r : Race) → r.ended ≡ false → r.lock ≡ l → HeldIn l r → CanStep r
lock-CanStep free r on unlocked (inl here) = (_, enter_deferred on unlocked here)
lock-CanStep free r on unlocked (inr there) = (_, finish on there)
lock-CanStep (held u i) r on mine h = held-CanStep u i r on mine h

-- Of the steps of the threads that register nothing, whatever their order, each takes the number of
-- steps that are left down by one; and until the process has ended, some thread can take such a step.
pub Reach-Ends :
    (r t : Race) (n : ℕ)
    → Reach r
    → Run n r t
    → (n + steps_left t ≡ steps_left r) × ((t.ended ≡ true) ⊎ CanStep t)
Reach-Ends r t n before run = (
  Run-steps_left n r t run,
  elim (Bool-cases t.ended) [
    | inl over ↦ inl over
    | inr on ↦ inr (lock-CanStep t.lock t on refl (Reach-Held t (Run-Reach before run)))
  ],
)
