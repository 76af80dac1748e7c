-- ===== src/Main/Setup.antt =====
-- zevinit/src/main.rs: coming up, and parking where nothing else is left.
use zevory_linux.Prelude.{ℕ, zero, suc, ◌++◌, Option, none, some, ltb}
use zevory_linux.Os.{Text, Os, M, pure, stop, aborted, parked, ◌>>=◌, ◌>>◌, when}
use zevory_linux.Sys
use zevory_linux.Sys.Io.{bytes, Result, ok, err, display, display_error}
use zevory_linux.Log
use zevory_linux.Mount.{mount_all}
use zevory_linux.Console
use zevory_linux.Shell
use zevory_linux.Shell.{
  Rescue, Verdict, keep_trying, moved_on, out_of_options, candidates, survived,
}
use zevory_linux.Signal.{Signals, install, watched}

module _ (o : Os) where
  -- a panic of the standard library: the hook logs it, and `panic = "abort"` ends the process
  unfoldable pub panic : {A : Type 0} → Text → M A
  panic info = do Log.error o (bytes "panic: " ++ info); stop aborted

  unfoldable pub or_panic : {A : Type 0} → Option A → M A
  or_panic none = panic (bytes "index out of bounds")
  or_panic (some a) = pure a

  unfoldable pub banner : ℕ → M Unit
  banner failed = do
    Log.to_console o (bytes "\nZevory Linux\n\n")
    when (ltb 0 failed) (
        Log.to_console o (
          bytes "  "
          ++ (display failed ++ bytes " filesystem(s) did not mount, look above for which\n\n")))

  -- `loop { sys::pause() }`, as many rounds of it as there is fuel
  unfoldable pub pause_forever : {A : Type 0} → ℕ → M A
  pause_forever zero = stop parked
  pause_forever (suc rounds) = do Sys.pause o; pause_forever rounds

  -- `main` up to the signals
  unfoldable pub come_up : M ℕ
  come_up = do
    failed ← mount_all o
    Log.keep_every_message o
    Console.ensure_nodes o
    attached ← Console.attach_stdio o
    elim attached [
      | ok _ ↦ Console.take_ctty o
      | err e ↦
          Log.error o
            (bytes "no console (" ++ (display_error o e ++ bytes "), carrying on without one"))
    ]
    pure failed

  unfoldable pub keep_ctrl_alt_del : M Unit
  keep_ctrl_alt_del = do
    taken ← Sys.disable_ctrl_alt_del o
    elim taken [
      | ok _ ↦ pure tt
      | err e ↦ Log.warn o (
          bytes "ctrl+alt+del stays with the kernel ("
          ++ (display_error o e ++ bytes "), it will reboot on the spot"))
    ]

unfoldable pub way_out : Result Unit → Text
way_out (ok _) = bytes "press ctrl+alt+del to reboot"
way_out (err _) = bytes "power cycle the machine"

module _ (o : Os) (fuel : ℕ) where
  unfoldable pub park : {A : Type 0} → Text → M A
  park why = do
    cad ← Sys.enable_ctrl_alt_del o
    Log.error o (why ++ bytes ", so there is nothing left to do. parked")
    Log.to_console o (
        bytes "\nzevinit: "
        ++ (why ++ (bytes ", so there is nothing left to do.\n" ++ (way_out cad ++ bytes "\n"))))
    pause_forever o fuel

  unfoldable pub watch_signals : M Signals
  watch_signals = do
    installed ← install o (watched o)
    elim installed [
      | ok signals ↦ pure signals
      | err e ↦ park (bytes "cannot watch for signals (" ++ (display_error o e ++ bytes ")"))
    ]

  unfoldable pub find_shell : M Rescue
  find_shell = do
    found ← Shell.new o candidates
    elim found [ some rescue ↦ pure rescue | none ↦ park (bytes "no shell in the initramfs") ]
