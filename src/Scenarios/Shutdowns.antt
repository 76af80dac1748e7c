-- ===== src/Scenarios/Shutdowns.antt =====
-- The way down from the signals to the last wait, and the table over a child's life.
use zevory_linux.Prelude.{
  Bool, ◌+◌, ◌^◌, ◌%◌, ◌≡◌, refl, List, [], ◌∷◌, true, some, pos, as_u64, ◌==ℤ◌,
}
use zevory_linux.Os.{Event, Call, Reply}
use zevory_linux.Os.Rules.{Meets}
use zevory_linux.Sys.Io.{bytes}
use zevory_linux.Proc.{Table}
use zevory_linux.Proc.Entries.{find_live, Distinct}
use zevory_linux.Proc.Live.{Op, Fresh, exit, forget, start, run, replay, live, run_refines}
use zevory_linux.Signal.Refinement.{AnyStop}
use zevory_linux.Power.{stop_everything, wait_for_silence}
use zevory_linux.Power.Protocol.{Reaping, Then, stop_everything_lem}
use zevory_linux.Power.Verdicts.{Rests, wait_for_silence_lem}
use zevory_linux.Scenarios.Children.{one_shell}
use zevory_linux.Scenarios.Lives.{rebooted, signals}

stop_everything_lem_example :
    Meets
      (λ s. s.trace ≡ [])
      (stop_everything rebooted 100 signals one_shell)
      (λ _ s.
        (u : Table) × (left : Bool) × (start : List Event) × Reaping rebooted [] one_shell u left
          start
        × Then rebooted 100 signals left u start s)
      AnyStop
stop_everything_lem_example = stop_everything_lem rebooted 100 signals [] one_shell

wait_for_silence_lem_example :
    Meets
      (λ s. s.trace ≡ [])
      (wait_for_silence rebooted 100 signals one_shell 5)
      (λ r s.
        (first : Reply) × (rebooted.answer [] (Call.clock_gettime rebooted.clock_monotonic)
          ≡ some first)
        × Rests rebooted ((as_u64 first.out + 5) % 2 ^ 64) r.0 s.trace)
      AnyStop
wait_for_silence_lem_example = wait_for_silence_lem rebooted 100 signals [] one_shell 5

-- A shell is started, ends with a failure and is forgotten, and the next gets its pid.
abbrev reused : List Op
reused =
    start (bytes "shell") (pos 100) true 1
    ∷ exit (pos 100) (pos 256)
    ∷ forget
    ∷ start (bytes "shell") (pos 100) true 3
    ∷ []

reused-Fresh : Fresh reused (live [])
unfolding find_live ◌==ℤ◌
reused-Fresh = (refl, (refl, tt))

run_refines_example :
    Distinct (run rebooted reused []) × (live (run rebooted reused []) ≡ replay reused (live []))
run_refines_example = run_refines rebooted reused [] tt reused-Fresh
