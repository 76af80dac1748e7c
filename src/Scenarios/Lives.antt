-- ===== src/Scenarios/Lives.antt =====
-- A life of pid 1 from the first call to the last: a reboot asked for by SIGTERM.
use zevory_linux.Prelude.{
  none, ==ℤ_iff, ℕ, min, as_u64, ◌/◌, ◌++◌, ◌≤◌, some, ◌≡◌, refl, List, [], true, ℤ, pos, negsuc,
  is_positive, arith,
}
use zevory_linux.Os.{Text, Call, Event, Reply, Os, Stop, stopped}
use zevory_linux.Os.Rules.{Meets}
use zevory_linux.Sys.Io.{bytes}
use zevory_linux.Sys.{write_fd}
use zevory_linux.Sys.Written.{output, TakesWhatIsGiven, Wrote, write_fd-Wrote, NeverCut}
use zevory_linux.Shell.{Rescue}
use zevory_linux.Shell.Chances.{IsValid}
use zevory_linux.Proc.{running_count, forget_finished}
use zevory_linux.Signal.{Signals, reap_all, classify, watched}
use zevory_linux.Signal.Requests.{meaning, readme, is_among, is_wired, classify_lem}
use zevory_linux.Signal.Reaping.{reaps, after_exits, any_known, is_some}
use zevory_linux.Signal.Refinement.{WaitedOut, reap_all_lem, AnyStop}
use zevory_linux.Signal.Termination.{GivesAtMost, NoAnswer, reap_all_ends}
use zevory_linux.Mount.{table, mount_all}
use zevory_linux.Mount.Attempts.{AllTried, Standing, mount_all_counts}
use zevory_linux.Power.Actions.{kernel_command, reboot}
use zevory_linux.Power.{execute}
use zevory_linux.Power.Silence.{polls, GoesOn}
use zevory_linux.Power.Ends.{AskedKernel, NeverReturned, execute_hands_over, Ends, execute-Ends}
use zevory_linux.Main.{main}
use zevory_linux.Main.Supervise.{Watch, round, supervise}
use zevory_linux.Main.Shells.{Gives, Left, round_one_shell, supervise_one_shell}
use zevory_linux.Lifecycle.{up, down, flushed, phase, Orderly, EndsWell, In, Ended}
use zevory_linux.Lifecycle.Shutdown.{execute-Orderly}
use zevory_linux.Lifecycle.Supervision.{supervise-Orderly}
use zevory_linux.Lifecycle.Whole.{boot, main-Orderly, main_never_returns}
use zevory_linux.Lifecycle.Sanction.{Sanctioned, main-Sanctioned}
use zevory_linux.Scenarios.Linux.{steady_os}
use zevory_linux.Scenarios.Children.{one_shell-running_count, one_shell, two_shells}

abbrev pub rebooted : Os
rebooted = steady_os (pos 15)

abbrev first_process : Reply
first_process = record { rc = pos 1; errno = pos 0; out = pos 0 }

abbrev pub signals : Signals
signals = record { fd = pos 4 }

abbrev pub first_choice : Rescue
first_choice = record { usable = two_shells; at = 0; strikes = 0 }

first_choice-IsValid : IsValid first_choice
first_choice-IsValid = record { in_range = omega arith; few_strikes = omega arith }

main-Orderly_example : Orderly rebooted (main rebooted 10 boot).1.trace
main-Orderly_example = main-Orderly rebooted 10 first_process refl refl

main-Sanctioned_example : Sanctioned rebooted (main rebooted 10 boot).1.trace
main-Sanctioned_example = main-Sanctioned rebooted 10 first_process refl refl

main_never_returns_example :
    (why : Stop) × ((main rebooted 10 boot).0 ≡ stopped why)
    × EndsWell rebooted why (phase rebooted (main rebooted 10 boot).1.trace)
main_never_returns_example = main_never_returns rebooted 10 first_process refl refl

execute-Orderly_example :
    Meets
      (In rebooted (down reboot))
      (execute rebooted 10 signals reboot one_shell)
      (λ _. In rebooted (flushed reboot))
      (Ended rebooted)
execute-Orderly_example = execute-Orderly rebooted reboot 10 signals one_shell

supervise-Orderly_example :
    Meets
      (In rebooted up)
      (supervise rebooted 10 one_shell signals first_choice)
      (λ d. In rebooted (down d.0))
      (Ended rebooted)
supervise-Orderly_example =
    supervise-Orderly rebooted 10 one_shell signals first_choice first_choice-IsValid

reap_all_lem_example :
    Meets
      (λ s. reaps s.trace ≡ [])
      (reap_all rebooted 10 one_shell)
      (λ r s.
        (exits : List (ℤ × ℤ)) × (reaps s.trace ≡ exits ++ [])
        × (r.1 ≡ forget_finished (after_exits rebooted one_shell exits))
        × (is_some r.0.shortest_life ≡ any_known rebooted one_shell exits)
        × WaitedOut rebooted r.0.children_left s.trace)
      AnyStop
reap_all_lem_example = reap_all_lem rebooted 10 one_shell []

no_child :
    (t : List Event) (r : Reply)
    → rebooted.answer t (Call.waitpid (negsuc 0) rebooted.wnohang) ≡ some r
    → is_positive r.rc ≡ true
    → ⊥
unfolding is_positive
no_child t r e m = cc

-- No child ever ends.
gives_none : GivesAtMost rebooted 0
gives_none t r answered more = absurd (no_child t r answered more)

reap_all_ends_example :
    Meets (λ _. Unit) (reap_all rebooted 1 one_shell) (λ _ _. Unit) (NoAnswer rebooted)
reap_all_ends_example = reap_all_ends rebooted 0 gives_none 1 one_shell (omega arith)

pub takes_everything : TakesWhatIsGiven rebooted
takes_everything t fd text r answered = ground arith

abbrev greeting : Text
greeting = bytes "zevory is up"

write_fd-Wrote_example :
    Meets
      (λ s. output (pos 1) s.trace ≡ [])
      (write_fd rebooted (pos 1) greeting)
      (Wrote (pos 1) [] greeting)
      NeverCut
write_fd-Wrote_example = write_fd-Wrote rebooted (pos 1) greeting [] takes_everything

mount_all_counts_example :
    Meets
      (Standing rebooted 0 [])
      (mount_all rebooted)
      (AllTried rebooted (table rebooted) 0 [])
      NeverCut
mount_all_counts_example = mount_all_counts rebooted 0 []

abbrev watch : Watch
watch = record { table = one_shell; rescue = first_choice; respawn_at = 0 }

round_one_shell_example : Gives (round rebooted 10 signals watch) (Left rebooted 10)
round_one_shell_example = round_one_shell rebooted 10 signals watch one_shell-running_count

supervise_one_shell_example :
    Gives (supervise rebooted 10 one_shell signals first_choice) (λ d. running_count d.1 ≤ 1)
supervise_one_shell_example =
    supervise_one_shell rebooted 10 one_shell signals first_choice one_shell-running_count

-- SIGPWR asks for a halt.
classify_lem_example :
    (classify rebooted (pos 30) ≡ meaning (readme rebooted) (pos 30))
    × (is_among (pos 30) (watched rebooted) ≡ is_wired (classify rebooted (pos 30)))
classify_lem_example = classify_lem rebooted (pos 30)

clock_reads :
    (t : List Event) (r : Reply)
    → rebooted.answer t (Call.clock_gettime rebooted.clock_monotonic) ≡ some r
    → as_u64 r.out ≡ min (polls t / 10) 0xffff_ffff_ffff_ffff
unfolding as_u64
clock_reads t r answered = ground arith

goes_on : (secs : ℕ) → secs ≤ 5 → GoesOn rebooted 50 secs
goes_on secs few t u r r' first next later =
    omega (arith, few, clock_reads t r first, clock_reads u r' next, later)

execute-Ends_example : Ends rebooted (execute rebooted 100 signals reboot one_shell)
execute-Ends_example =
    execute-Ends rebooted 0 50 100 signals gives_none (goes_on 5 (omega arith))
      (goes_on 2 (omega arith)) (omega arith) (omega arith) reboot one_shell

others_return :
    (s : List Event) (c : Call)
    → rebooted.answer s c ≡ none
    → c ≡ Call.reboot (kernel_command rebooted reboot)
unfolding kernel_command
others_return s (Call.reboot c) h = ground (arith, ==ℤ_iff c rebooted.rb_autoboot)
others_return s _ h = cc

execute_hands_over_example :
    Meets
      (λ _. Unit)
      (execute rebooted 100 signals reboot one_shell)
      (λ _ s. AskedKernel rebooted reboot s.trace)
      (NeverReturned rebooted reboot)
execute_hands_over_example =
    execute_hands_over rebooted 0 50 100 signals gives_none (goes_on 5 (omega arith))
      (goes_on 2 (omega arith)) (omega arith) (omega arith) reboot others_return one_shell
