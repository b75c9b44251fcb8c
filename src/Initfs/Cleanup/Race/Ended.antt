-- ===== src/Initfs/Cleanup/Race/Ended.antt =====
-- What ran when the process has ended.
use void_init.Base.{ℕ, ◌≤◌, ◌≡◌, ◌⊎◌, true}
use void_init.Initfs.Cleanup.Race.{behind, Race}
use void_init.Initfs.Cleanup.Race.Laws.{count, waiting}

-- How often the callback waits.
abbrev pending : ℕ → Race → ℕ
pending x r = count x (waiting r.lock r.fns)

-- Behind `run`'s unwinding nothing waits, behind the goroutine's nothing but what was registered
-- late; and the process ends behind one of them.
record Kept (x : ℕ) (r : Race) : Type 0 where
  main_done : r.main ≡ behind → pending x r ≡ 0
  signal_done : r.signal ≡ behind → pending x r ≤ count x r.late
  over : r.ended ≡ true → (r.main ≡ behind) ⊎ (r.signal ≡ behind)
