-- ===== src/Initfs/Cleanup/Race.antt =====
-- cmd/void-initfs/cleanup.go and main.go: the stack as the build, its deferred unwinding and the
-- signal handler share it. A callback goes by its number, and one step is what a thread does between
-- two points where another may run; the mutex lets one thread at a time into the stack.
pub mod Laws
pub mod Ended
pub mod Progress
mod Tests
use void_init.Base.{
  ℕ, zero, suc, ◌≡◌, Bool, true, false, some, List, [], ◌∷◌, ◌++◌, length, get_elem?, if◌then◌else◌,
}

-- Who unwinds: `run`'s deferred call, or the goroutine that waits for a signal.
pub data Thread : Type 0 where
  deferred handler : Thread

-- Where a thread is: ahead of its one call of `unwind`, in it, or behind it.
pub data Phase : Type 0 where
  ahead inside behind : Phase

abbrev pub is_behind : Phase → Bool
is_behind ahead = false
is_behind inside = false
is_behind behind = true

-- The mutex, and the `i + 1` of the loop of the thread that unwinds: the callbacks that are left.
pub data Lock : Type 0 where
  free : Lock
  held : Thread → ℕ → Lock

-- The stack, the thread of `run` and the goroutine, whether the process has ended, the callbacks that
-- ran, in their order, those that were registered, and those of them that were registered when the
-- goroutine had unwound.
pub record Race : Type 0 where
  pub lock : Lock
  pub fns : List ℕ
  pub main : Phase
  pub signal : Phase
  pub ended : Bool
  pub ran : List ℕ
  pub registered : List ℕ
  pub late : List ℕ

-- A step that registers nothing.
pub data Quiet (r : Race) : Race → Type 0 where
  -- `run` returns: `unwind` gets the mutex, `i := len(c.fns) - 1`.
  enter_deferred :
      r.ended ≡ false
      → r.lock ≡ free
      → r.main ≡ ahead
      → Quiet r (record r { lock = held deferred (length r.fns); main = inside })
  -- A signal came; the goroutine takes one only.
  enter_handler :
      r.ended ≡ false
      → r.lock ≡ free
      → r.signal ≡ ahead
      → Quiet r (record r { lock = held handler (length r.fns); signal = inside })
  -- `c.fns[i]()` and `i--`
  call :
      (t : Thread) (i f : ℕ)
      → r.ended ≡ false
      → r.lock ≡ held t (suc i)
      → get_elem? r.fns i ≡ some f
      → Quiet r (record r { lock = held t i; ran = r.ran ++ f ∷ [] })
  -- `c.fns = nil`, and the mutex is given back.
  leave_deferred :
      r.ended ≡ false
      → r.lock ≡ held deferred 0
      → r.main ≡ inside
      → Quiet r (record r { lock = free; fns = []; main = behind })
  leave_handler :
      r.ended ≡ false
      → r.lock ≡ held handler 0
      → r.signal ≡ inside
      → Quiet r (record r { lock = free; fns = []; signal = behind })
  -- `main` returns, or ends in `fatal`.
  finish : r.ended ≡ false → r.main ≡ behind → Quiet r (record r { ended = true })
  -- `os.Exit(1)` of the goroutine
  exit : r.ended ≡ false → r.signal ≡ behind → Quiet r (record r { ended = true })

pub data Step (r : Race) : Race → Type 0 where
  -- All of `push`, which makes no call while it holds the mutex, before `run` returns.
  register :
      (f : ℕ)
      → r.ended ≡ false
      → r.lock ≡ free
      → r.main ≡ ahead
      → Step r (record r {
        fns = r.fns ++ f ∷ [];
        registered = r.registered ++ f ∷ [];
        late = if is_behind r.signal then r.late ++ f ∷ [] else r.late;
      })
  quiet : {t : Race} → Quiet r t → Step r t

abbrev pub initial : Race
initial = record {
  lock = free;
  fns = [];
  main = ahead;
  signal = ahead;
  ended = false;
  ran = [];
  registered = [];
  late = [];
}

pub data Reach : Race → Type 0 where
  start : Reach initial
  later : {r t : Race} → Reach r → Step r t → Reach t
