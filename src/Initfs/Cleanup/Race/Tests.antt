-- ===== src/Initfs/Cleanup/Race/Tests.antt =====
-- A run in which the build registers callbacks, a signal comes, and the goroutine unwinds.
use void_init.Base.{◌+◌, ◌≡◌, ◌⊎◌, refl, true, false, [], ◌∷◌}
use void_init.Initfs.Cleanup.Race.{
  handler, ahead, inside, behind, free, held, Race, enter_handler, call, register, quiet, Reach,
  start, later,
}
use void_init.Initfs.Cleanup.Race.Laws.{count, Reach-Balanced}
use void_init.Initfs.Cleanup.Race.Progress.{Run, stop, next, steps_left, CanStep, Reach-Ends}

abbrev halfway : Race
halfway = record {
  lock = held handler 1;
  fns = 4 ∷ 9 ∷ [];
  main = ahead;
  signal = inside;
  ended = false;
  ran = 9 ∷ [];
  registered = 4 ∷ 9 ∷ [];
  late = [];
}

halfway-Reach : Reach halfway
halfway-Reach =
    later
      (later (later (later start (register 4 refl refl refl)) (register 9 refl refl refl))
        (quiet (enter_handler refl refl refl)))
      (quiet (call handler 1 9 refl refl refl))

Reach-Balanced_example : count 4 [] + count 4 (4 ∷ []) ≡ 1
Reach-Balanced_example = Reach-Balanced 4 halfway halfway-Reach

-- The goroutine has gone on to the last callback.
abbrev unwound : Race
unwound = record halfway { lock = held handler 0; ran = 9 ∷ 4 ∷ [] }

going_on : Run 1 halfway unwound
going_on = next (call handler 0 4 refl refl refl) stop

Reach-Ends_example :
    (1 + steps_left unwound ≡ steps_left halfway) × ((false ≡ true) ⊎ CanStep unwound)
Reach-Ends_example = Reach-Ends halfway unwound 1 halfway-Reach going_on

-- The build registers one callback more, and then the goroutine ends the process: it never runs.
abbrev lost : Race
lost = record {
  lock = free;
  fns = 7 ∷ [];
  main = ahead;
  signal = behind;
  ended = true;
  ran = 9 ∷ 4 ∷ [];
  registered = 4 ∷ 9 ∷ 7 ∷ [];
  late = 7 ∷ [];
}
