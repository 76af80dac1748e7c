-- ===== src/Lifecycle/Lasting/GoingDown.antt =====
-- The way down, and all that `main` does once it watches signals, keep what every call keeps.
use zevory_linux.Prelude.{ℕ, List, [], ◌∷◌, ℤ}
use zevory_linux.Os.{Call, Os, Process, call}
use zevory_linux.Os.Rules.{Keeps-pure, Keeps-bind, Keeps-elim}
use zevory_linux.Sys.{signal_group, signal_everyone, flush_filesystems, hand_over_to_kernel}
use zevory_linux.Log.Quiet.{Keeps-error, Keeps-warn, Keeps-info, Keeps-to_console}
use zevory_linux.Proc.{Table, session_leaders}
use zevory_linux.Shell.{Rescue}
use zevory_linux.Signal.{Signals}
use zevory_linux.Power.Actions.{Action}
use zevory_linux.Power.{hang_up, kill_the_rest, terminate, stop_everything, execute}
use zevory_linux.Power.Waiting.{Keeps-reap_all, Keeps-wait_for_silence}
use zevory_linux.Main.{serve}
use zevory_linux.Lifecycle.Lasting.{
  Lasts, Lasting, Lasting-Quiet, Lasting-Patient, Lasts-call_then, Lasts-park,
}
use zevory_linux.Lifecycle.Lasting.Serving.{Lasts-supervise}

module _ (o : Os) {I : Process → Type 0} (l : Lasting o I) where
  Lasts-hang_up : (leaders : List ℤ) → Lasts I (hang_up o leaders)
  unfolding hang_up signal_group
  Lasts-hang_up [] = Keeps-pure _
  Lasts-hang_up (leader ∷ leaders) =
      Keeps-bind _ _ (Lasts-call_then o l _ _ tt) λ _. Lasts-hang_up leaders

  Lasts-signal_everyone : (signal : ℤ) → Lasts I (signal_everyone o signal)
  unfolding signal_everyone
  Lasts-signal_everyone signal = Lasts-call_then o l _ _ tt

module _ (o : Os) {I : Process → Type 0} (l : Lasting o I) (fuel : ℕ) (signals : Signals) where
  Lasts-kill_the_rest : (t : Table) → Lasts I (kill_the_rest o fuel signals t)
  unfolding kill_the_rest
  Lasts-kill_the_rest t = Keeps-bind _ _ (Keeps-warn o (Lasting-Quiet o l) _) λ _.
      Keeps-bind _ _ (Keeps-to_console o (Lasting-Quiet o l) _) λ _.
        Keeps-bind _ _ (Lasts-signal_everyone o l _) λ _.
          Keeps-bind _ _ (Keeps-wait_for_silence o (Lasting-Patient o l) fuel signals t _) λ waited.
            Keeps-elim waited.0 _ _ (Keeps-pure _)
              (Keeps-bind _ _ (Keeps-error o (Lasting-Quiet o l) _) λ _. Keeps-pure _)

  Lasts-terminate : (t : Table) → Lasts I (terminate o fuel signals t)
  unfolding terminate
  Lasts-terminate t = Keeps-bind _ _ (Keeps-to_console o (Lasting-Quiet o l) _) λ _.
      Keeps-bind _ _ (Lasts-hang_up o l (session_leaders t)) λ _.
        Keeps-bind _ _ (Lasts-signal_everyone o l _) λ _.
          Keeps-bind _ _ (Lasts-signal_everyone o l _) λ _.
            Keeps-bind _ _ (Keeps-wait_for_silence o (Lasting-Patient o l) fuel signals t _)
              λ waited. Keeps-elim waited.0 _ _ (Keeps-pure _) (Lasts-kill_the_rest waited.1)

  Lasts-stop_everything : (t : Table) → Lasts I (stop_everything o fuel signals t)
  unfolding stop_everything
  Lasts-stop_everything t =
      Keeps-bind _ _ (Keeps-reap_all o (Lasting-Quiet o l) (l.on_call _ tt) (λ s h. h) fuel t)
        λ reaped. Keeps-elim reaped.0.children_left _ _ (Lasts-terminate reaped.1) (Keeps-pure _)

  Lasts-execute : (a : Action) (t : Table) → Lasts I (execute o fuel signals a t)
  unfolding execute flush_filesystems hand_over_to_kernel
  Lasts-execute a t = Keeps-bind _ _ (Keeps-to_console o (Lasting-Quiet o l) _) λ _.
      Keeps-bind _ _ (Keeps-info o (Lasting-Quiet o l) _) λ _.
        Keeps-bind _ _ (Lasts-stop_everything t) λ t'.
          Keeps-bind _ _ (Lasts-call_then o l _ _ tt) λ _.
            Keeps-bind _ _ (Keeps-info o (Lasting-Quiet o l) _)
              λ _. Keeps-bind _ _ (Lasts-call_then o l _ _ tt) λ failure. Keeps-pure _

  pub Lasts-serve :
      Lasts I (call o Call.fork) → (t : Table) (r : Rescue) → Lasts I (serve o fuel signals t r)
  unfolding serve
  Lasts-serve on_fork t r =
      Keeps-bind _ _ (Lasts-supervise o l on_fork fuel t signals r)
        λ asked. Keeps-bind _ _ (Lasts-execute asked.0 asked.1) λ refused. Lasts-park o l fuel _
