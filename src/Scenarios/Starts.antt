-- ===== src/Scenarios/Starts.antt =====
-- Starts of shells, at boot, at once and after a death, and a line of the log.
use zevory_linux.Prelude.{[], some, negsuc, ◌≡◌}
use zevory_linux.Os.{Process, ◌>>=◌}
use zevory_linux.Os.Rules.{Meets}
use zevory_linux.Sys.Io.{bytes}
use zevory_linux.Sys.Written.{NeverCut}
use zevory_linux.Log.{warn_level, emit}
use zevory_linux.Log.Fallback.{Emitted, emit_lem}
use zevory_linux.Proc.{spawn}
use zevory_linux.Proc.Starts.{Started, Absent, spawn_lem}
use zevory_linux.Signal.Refinement.{AnyStop}
use zevory_linux.Main.{main}
use zevory_linux.Lifecycle.Whole.{boot}
use zevory_linux.Lifecycle.Watched.{WatchesFirst, main-WatchesFirst}
use zevory_linux.Main.Supervise.{Watch, respawn, after_reaping}
use zevory_linux.Main.Backoff.{Respawned, respawn_lem, HeldBack, held_back}
use zevory_linux.Scenarios.Children.{busybox, one_shell}
use zevory_linux.Scenarios.Lives.{rebooted, first_choice, takes_everything}

abbrev at_boot : Process
at_boot = record { trace = []; kmsg = negsuc 0 }

abbrev idle : Watch
idle = record { table = []; rescue = first_choice; respawn_at = 0 }

spawn_lem_example :
    Meets
      (λ s. s.trace ≡ [])
      (spawn rebooted one_shell busybox)
      (Started rebooted [] one_shell busybox)
      (Absent rebooted [] busybox)
spawn_lem_example = spawn_lem rebooted [] one_shell busybox

respawn_lem_example :
    Meets (λ s. s.trace ≡ []) (respawn rebooted 10 idle) (Respawned rebooted [] idle) AnyStop
respawn_lem_example = respawn_lem rebooted 10 [] idle

held_back_example :
    Meets
      (λ s. s.trace ≡ [])
      (after_reaping rebooted 10 idle (some 0) >>= λ v. respawn rebooted 10 v)
      (HeldBack rebooted 10 [] idle)
      AnyStop
held_back_example = held_back rebooted 10 [] idle

emit_lem_example :
    Meets
      (λ s. s ≡ at_boot)
      (emit rebooted warn_level (bytes "no /dev/kmsg yet"))
      (λ _. Emitted rebooted warn_level (bytes "no /dev/kmsg yet") at_boot)
      NeverCut
emit_lem_example = emit_lem rebooted warn_level (bytes "no /dev/kmsg yet") at_boot takes_everything

main-WatchesFirst_example : WatchesFirst rebooted (main rebooted 10 boot).1.trace
main-WatchesFirst_example = main-WatchesFirst rebooted 10
