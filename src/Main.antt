-- ===== src/Main.antt =====
-- zevinit/src/main.rs: `main`. Its parts are in the modules below.
pub mod Setup
pub mod Supervise
pub mod Shells
pub mod Backoff
use zevory_linux.Prelude.{
  ℕ, zero, suc, ◌+◌, ◌%◌, ◌^◌, List, [], ◌∷◌, ◌++◌, Bool, true, false, not, ◌&&◌, Option, none,
  some, ℤ, pos, ◌==ℤ◌, ◌==◌, ltb, leb, if◌then◌else◌,
}
use zevory_linux.Os.{
  Text, Call, Os, M, pure, stop, exited, aborted, parked, out_of_fuel, ◌>>=◌, ◌>>◌, when, call,
}
use zevory_linux.Sys
use zevory_linux.Sys.Io.{
  bytes, IoError, Result, ok, err, display, display_int, display_error, is_interrupted,
}
use zevory_linux.Log
use zevory_linux.Mount.{mount_all}
use zevory_linux.Console
use zevory_linux.Proc.{Table, Spec, running_count, spawn}
use zevory_linux.Proc
use zevory_linux.Shell
use zevory_linux.Shell.{
  Rescue, Verdict, keep_trying, moved_on, out_of_options, candidates, survived,
}
use zevory_linux.Signal.{
  Signals, Harvest, child_changed, reload, shutdown, unknown, Request, classify, reap_all, wait,
  install, watched, until_something_arrives,
}
use zevory_linux.Signal
use zevory_linux.Power.Actions
use zevory_linux.Power.Actions.{Action}
use zevory_linux.Power.{execute}
use Setup.{panic, or_panic, park, banner, come_up, watch_signals, keep_ctrl_alt_del, find_shell}
use Supervise.{start, supervise}

unfoldable pub ready_marker : Text
ready_marker = bytes "bootstrap OK, shell ready"

module _ (o : Os) (fuel : ℕ) where
  -- `main` from `supervise` on
  unfoldable pub serve : Signals → Table → Rescue → M Unit
  serve signals table rescue = do
    (action, table') ← supervise o fuel table signals rescue
    (failure, _) ← execute o fuel signals action table'
    park o fuel (
        bytes "the kernel refused to "
        ++ (Actions.name action ++ (bytes " (" ++ (display_error o failure ++ bytes ")"))))

  -- `main` behind the test of the pid
  unfoldable pub run : M Unit
  run = do
    failed ← come_up o
    signals ← watch_signals o fuel
    keep_ctrl_alt_del o
    banner o failed
    rescue ← find_shell o fuel
    table ← start o fuel Proc.new rescue
    Log.info o ready_marker
    serve signals table rescue

  unfoldable pub main : M Unit
  main = do
    pid ← Sys.getpid o
    elim (pid ==ℤ pos 1) [
      | true ↦ run
      | false ↦ (do
        call o (
            Call.eprint (
              bytes "zevinit: pid is " ++ (display_int pid ++ bytes ", not 1, refusing to run.\n")))
        call o (
            Call.eprint
              (bytes "zevinit is the init of a Zevory system, not a command you run by hand.\n"))
        stop (exited (pos 1)))
    ]
