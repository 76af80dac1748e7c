-- ===== src/Lifecycle/Lasting/ComingUp.antt =====
-- Coming up keeps what every call but `fork` keeps.
use zevory_linux.Prelude.{ℕ, ◌+◌, ℤ, List, [], ◌∷◌, is_negative, ltb}
use zevory_linux.Os.{Text, Os, Process}
use zevory_linux.Os.Rules.{
  Keeps-option, Keeps-try, Keeps-attempt, Keeps-when, Keeps-pure, Keeps-bind, Keeps-elim,
  Keeps-result,
}
use zevory_linux.Sys
use zevory_linux.Sys.{
  cstr, mknod_char, open_rw, dup2_each, dup2_stdio, transpose_cstr, disable_ctrl_alt_del,
  block_signals, signal_fd,
}
use zevory_linux.Log.Quiet.{Keeps-warn, Keeps-error, Keeps-to_console, Keeps-keep_every_message}
use zevory_linux.Mount.{Vfs, mount_all, mount_each, mount_one, create_dir_all}
use zevory_linux.Console.{
  Node, exists, create_node, ensure_each, ensure_nodes, attach_stdio, take_ctty,
}
use zevory_linux.Proc.{Spec, is_available}
use zevory_linux.Shell.{over, available}
use zevory_linux.Shell
use zevory_linux.Signal.{install}
use zevory_linux.Main.Setup.{banner, come_up, watch_signals, keep_ctrl_alt_del, find_shell}
use zevory_linux.Lifecycle.Lasting.{
  Lasts, Lasting, Lasting-Quiet, Lasts-call_then, Lasts-check, Lasts-park, Lasts-new_session,
  Lasts-set_ctty,
}

module _ (o : Os) {I : Process → Type 0} (l : Lasting o I) where
  Lasts-dup2_each : (fd : ℤ) (targets : List ℤ) → Lasts I (dup2_each o fd targets)
  unfolding dup2_each
  Lasts-dup2_each fd [] = Keeps-pure _
  Lasts-dup2_each fd (t ∷ ts) =
      Keeps-bind _ _ (l.on_call _ tt)
        λ r. Keeps-elim (is_negative r.rc) _ _ (Keeps-pure _) (Lasts-dup2_each fd ts)

  Lasts-dup2_stdio : (fd : ℤ) → Lasts I (dup2_stdio o fd)
  unfolding dup2_stdio
  Lasts-dup2_stdio fd =
      Keeps-attempt _ _ (Lasts-dup2_each fd _)
        λ _. Keeps-bind _ _ (Keeps-when _ _ (Lasts-call_then o l _ _ tt)) λ _. Keeps-pure _

  Lasts-attach_stdio : Lasts I (attach_stdio o)
  unfolding attach_stdio open_rw
  Lasts-attach_stdio =
      Keeps-attempt _ _ (Keeps-try (cstr _) _ λ c. Lasts-call_then o l _ _ tt) Lasts-dup2_stdio

  Lasts-take_ctty : Lasts I (take_ctty o)
  unfolding take_ctty Sys.take_ctty
  Lasts-take_ctty =
      Keeps-bind _ _ (Keeps-bind _ _ (Lasts-new_session o l) λ _. Lasts-set_ctty o l _ _)
        λ r. Keeps-result r _ _ (λ _. Keeps-pure tt) (λ e. Keeps-warn o (Lasting-Quiet o l) _)

  Lasts-exists : (path : Text) → Lasts I (exists o path)
  unfolding exists
  Lasts-exists path = Lasts-call_then o l _ _ tt

  Lasts-available : (specs : List Spec) → Lasts I (available o specs)
  unfolding available is_available
  Lasts-available [] = Keeps-pure []
  Lasts-available (s ∷ ss) =
      Keeps-bind _ _ (Lasts-exists _)
        λ there. Keeps-bind _ _ (Lasts-available ss) λ rest. Keeps-pure _

  Lasts-install : (signals : List ℤ) → Lasts I (install o signals)
  unfolding install block_signals signal_fd
  Lasts-install signals =
      Keeps-attempt _ _ (Lasts-check o l _ tt)
        λ _. Keeps-attempt _ _ (Lasts-call_then o l _ _ tt) λ fd. Keeps-pure _

  pub Lasts-banner : (failed : ℕ) → Lasts I (banner o failed)
  unfolding banner
  Lasts-banner failed =
      Keeps-bind _ _ (Keeps-to_console o (Lasting-Quiet o l) _)
        λ _. Keeps-when (ltb 0 failed) _ (Keeps-to_console o (Lasting-Quiet o l) _)

  Lasts-mount_one : (v : Vfs) → Lasts I (mount_one o v)
  unfolding mount_one create_dir_all Sys.mount
  Lasts-mount_one v = Keeps-attempt _ _ (Lasts-call_then o l _ _ tt) λ _.
      Keeps-bind _ _
        (Keeps-try (cstr _) _ λ source. Keeps-try (cstr _) _ λ target.
          Keeps-try (cstr _) _
            λ fstype. Keeps-try (transpose_cstr _) _ λ content. Lasts-check o l _ tt)
        λ r. Keeps-pure _

  Lasts-mount_each : (vs : List Vfs) (failed : ℕ) → Lasts I (mount_each o vs failed)
  unfolding mount_each
  Lasts-mount_each [] failed = Keeps-pure failed
  Lasts-mount_each (v ∷ vs) failed = Keeps-bind _ _ (Lasts-mount_one v) λ r.
      Keeps-result r _ _ (λ _. Lasts-mount_each vs failed)
        (λ e.
          Keeps-bind _ _ (Keeps-warn o (Lasting-Quiet o l) _) λ _. Lasts-mount_each vs (failed + 1))

  Lasts-create_node : (n : Node) → Lasts I (create_node o n)
  unfolding create_node mknod_char
  Lasts-create_node n =
      Keeps-bind _ _ (Keeps-try (cstr _) _ λ path. Lasts-check o l _ tt)
        λ r. Keeps-result r _ _ (λ _. Keeps-pure tt) (λ e. Keeps-warn o (Lasting-Quiet o l) _)

  Lasts-ensure_each : (ns : List Node) → Lasts I (ensure_each o ns)
  unfolding ensure_each
  Lasts-ensure_each [] = Keeps-pure tt
  Lasts-ensure_each (n ∷ ns) = Keeps-bind _ _ (Lasts-exists _) λ there.
      Keeps-elim there _ _ (Lasts-ensure_each ns)
        (Keeps-bind _ _ (Lasts-create_node n) λ _. Lasts-ensure_each ns)

  pub Lasts-come_up : Lasts I (come_up o)
  unfolding come_up mount_all ensure_nodes
  Lasts-come_up = Keeps-bind _ _ (Lasts-mount_each _ 0) λ failed.
      Keeps-bind _ _ (Keeps-keep_every_message o (Lasting-Quiet o l)) λ _.
        Keeps-bind _ _ (Lasts-ensure_each _) λ _. Keeps-bind _ _ (Lasts-attach_stdio) λ attached.
          Keeps-bind _ _
            (Keeps-result attached _ _ (λ _. Lasts-take_ctty)
              (λ e. Keeps-error o (Lasting-Quiet o l) _))
            λ _. Keeps-pure failed

  pub Lasts-watch_signals : (fuel : ℕ) → Lasts I (watch_signals o fuel)
  unfolding watch_signals
  Lasts-watch_signals fuel = Keeps-bind _ _ (Lasts-install _) λ installed.
      Keeps-result installed _ _ (λ signals. Keeps-pure signals) (λ e. Lasts-park o l fuel _)

  pub Lasts-keep_ctrl_alt_del : Lasts I (keep_ctrl_alt_del o)
  unfolding keep_ctrl_alt_del disable_ctrl_alt_del
  Lasts-keep_ctrl_alt_del =
      Keeps-bind _ _ (Lasts-check o l _ tt) λ taken.
        Keeps-result taken _ _ (λ _. Keeps-pure tt) (λ e. Keeps-warn o (Lasting-Quiet o l) _)

  pub Lasts-find_shell : (fuel : ℕ) → Lasts I (find_shell o fuel)
  unfolding find_shell Shell.new
  Lasts-find_shell fuel =
      Keeps-bind _ _ (Keeps-bind _ _ (Lasts-available _) λ usable. Keeps-pure _)
        λ found. Keeps-option found _ _ (λ r. Keeps-pure r) (Lasts-park o l fuel _)
