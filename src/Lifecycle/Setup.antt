-- ===== src/Lifecycle/Setup.antt =====
-- Coming up stays in the phase `up`: mount.rs, console.rs, the signal descriptor, the choice of a
-- shell, and `park`, which is also allowed once the filesystems are flushed.
use zevory_linux.Prelude.{
  ℕ, zero, suc, ◌+◌, ◌≡◌, refl, ◌∙◌, inl, inr, ℤ, List, [], ◌∷◌, is_negative, ltb,
}
use zevory_linux.Os.{Text, Call, Os, Process, stop}
use zevory_linux.Os.Rules.{
  Keeps-try, Keeps-attempt, Keeps-when, Meets, Meets-pure, Meets-option, Meets-bind, Meets-of_Keeps,
  Keeps-of_Meets, Keeps-pure, Keeps-bind, Keeps-elim, Keeps-result,
}
use zevory_linux.Sys
use zevory_linux.Sys.{
  cstr, mknod_char, open_rw, dup2_each, dup2_stdio, transpose_cstr, enable_ctrl_alt_del,
  disable_ctrl_alt_del, block_signals, signal_fd, pause,
}
use zevory_linux.Mount.{Vfs, mount_all, mount_each, mount_one, create_dir_all}
use zevory_linux.Console.{
  Node, exists, create_node, ensure_each, ensure_nodes, attach_stdio, take_ctty,
}
use zevory_linux.Proc.{Spec, is_available}
use zevory_linux.Shell.{over, available}
use zevory_linux.Shell.Chances.{IsValid, over-IsValid}
use zevory_linux.Shell
use zevory_linux.Signal.{install}
use zevory_linux.Main.Setup.{
  banner, pause_forever, park, come_up, watch_signals, keep_ctrl_alt_del, find_shell,
}
use zevory_linux.Lifecycle.{Phase, up, Allowed, In, Ended}
use zevory_linux.Lifecycle.Calls.{Stays, Stays-call}
use zevory_linux.Lifecycle.Logging.{
  Stays-call_then, Stays-check, Stays-new_session, Stays-set_ctty, Stays-error, Stays-warn,
  Stays-to_console, Stays-keep_every_message,
}

module _ (o : Os) (p : Phase) where
  Ends-pause_forever :
      {A : Type 0} {Q : A → Process → Type 0} (rounds : ℕ)
      → Meets (In o p) (pause_forever o {A = A} rounds) Q (Ended o)
  unfolding pause_forever stop pause
  Ends-pause_forever zero = record { at = λ s h. record { orderly = h.orderly; well = tt } }
  Ends-pause_forever (suc rounds) =
      Meets-bind _ _ (Meets-of_Keeps _ (Stays-call_then o p _ _ (λ r. refl) tt))
        λ _. Ends-pause_forever rounds

  -- `park` may be entered wherever Ctrl+Alt+Del may be given back, and gives no result: it meets
  -- whatever is asked of one.
  pub Ends-park :
      {A : Type 0} {Q : A → Process → Type 0} (fuel : ℕ) (why : Text)
      → Allowed o p (Call.reboot o.rb_enable_cad)
      → Meets (In o p) (park o fuel {A = A} why) Q (Ended o)
  unfolding park enable_ctrl_alt_del
  Ends-park fuel why may =
      Meets-bind _ _ (Meets-of_Keeps _ (Stays-check o p _ (λ r. refl) may)) λ cad.
        Meets-bind _ _ (Meets-of_Keeps _ (Stays-error o p _)) λ _.
          Meets-bind _ _ (Meets-of_Keeps _ (Stays-to_console o p _)) λ _. Ends-pause_forever fuel

  pub Stays-park :
      {A : Type 0} (fuel : ℕ) (why : Text)
      → Allowed o p (Call.reboot o.rb_enable_cad)
      → Stays o p (park o fuel {A = A} why)
  Stays-park fuel why may = Keeps-of_Meets _ (Ends-park fuel why may)

  Stays-dup2_each : (fd : ℤ) (targets : List ℤ) → Stays o p (dup2_each o fd targets)
  unfolding dup2_each
  Stays-dup2_each fd [] = Keeps-pure _
  Stays-dup2_each fd (t ∷ ts) =
      Keeps-bind _ _ (Stays-call o p _ (λ r. refl) tt)
        λ r. Keeps-elim (is_negative r.rc) _ _ (Keeps-pure _) (Stays-dup2_each fd ts)

  Stays-dup2_stdio : (fd : ℤ) → Stays o p (dup2_stdio o fd)
  unfolding dup2_stdio
  Stays-dup2_stdio fd = Keeps-attempt _ _ (Stays-dup2_each fd _) λ _.
      Keeps-bind _ _ (Keeps-when _ _ (Stays-call_then o p _ _ (λ r. refl) tt)) λ _. Keeps-pure _

  Stays-attach_stdio : Stays o p (attach_stdio o)
  unfolding attach_stdio open_rw
  Stays-attach_stdio =
      Keeps-attempt _ _ (Keeps-try (cstr _) _ λ c. Stays-call_then o p _ _ (λ r. refl) tt)
        Stays-dup2_stdio

  Stays-take_ctty : Stays o p (take_ctty o)
  unfolding take_ctty Sys.take_ctty
  Stays-take_ctty =
      Keeps-bind _ _ (Keeps-bind _ _ (Stays-new_session o p) λ _. Stays-set_ctty o p _ _)
        λ r. Keeps-result r _ _ (λ _. Keeps-pure tt) (λ e. Stays-warn o p _)

  Stays-exists : (path : Text) → Stays o p (exists o path)
  unfolding exists
  Stays-exists path = Stays-call_then o p _ _ (λ r. refl) tt

  Stays-available : (specs : List Spec) → Stays o p (available o specs)
  unfolding available is_available
  Stays-available [] = Keeps-pure []
  Stays-available (s ∷ ss) =
      Keeps-bind _ _ (Stays-exists _)
        λ there. Keeps-bind _ _ (Stays-available ss) λ rest. Keeps-pure _

  Stays-install : (signals : List ℤ) → Stays o p (install o signals)
  unfolding install block_signals signal_fd
  Stays-install signals =
      Keeps-attempt _ _ (Stays-check o p _ (λ r. refl) tt)
        λ _. Keeps-attempt _ _ (Stays-call_then o p _ _ (λ r. refl) tt) λ fd. Keeps-pure _

  pub Stays-banner : (failed : ℕ) → Stays o p (banner o failed)
  unfolding banner
  Stays-banner failed =
      Keeps-bind _ _ (Stays-to_console o p _)
        λ _. Keeps-when (ltb 0 failed) _ (Stays-to_console o p _)

module _ (o : Os) where
  Stays-mount_one : (v : Vfs) → Stays o up (mount_one o v)
  unfolding mount_one create_dir_all Sys.mount
  Stays-mount_one v = Keeps-attempt _ _ (Stays-call_then o up _ _ (λ r. refl) tt) λ _.
      Keeps-bind _ _
        (Keeps-try (cstr _) _ λ source. Keeps-try (cstr _) _ λ target.
          Keeps-try (cstr _) _
            λ fstype. Keeps-try (transpose_cstr _) _ λ content. Stays-check o up _ (λ r. refl) tt)
        λ r. Keeps-pure _

  Stays-mount_each : (vs : List Vfs) (failed : ℕ) → Stays o up (mount_each o vs failed)
  unfolding mount_each
  Stays-mount_each [] failed = Keeps-pure failed
  Stays-mount_each (v ∷ vs) failed = Keeps-bind _ _ (Stays-mount_one v) λ r.
      Keeps-result r _ _ (λ _. Stays-mount_each vs failed)
        (λ e. Keeps-bind _ _ (Stays-warn o up _) λ _. Stays-mount_each vs (failed + 1))

  Stays-create_node : (n : Node) → Stays o up (create_node o n)
  unfolding create_node mknod_char
  Stays-create_node n =
      Keeps-bind _ _ (Keeps-try (cstr _) _ λ path. Stays-check o up _ (λ r. refl) tt)
        λ r. Keeps-result r _ _ (λ _. Keeps-pure tt) (λ e. Stays-warn o up _)

  Stays-ensure_each : (ns : List Node) → Stays o up (ensure_each o ns)
  unfolding ensure_each
  Stays-ensure_each [] = Keeps-pure tt
  Stays-ensure_each (n ∷ ns) = Keeps-bind _ _ (Stays-exists o up _) λ there.
      Keeps-elim there _ _ (Stays-ensure_each ns)
        (Keeps-bind _ _ (Stays-create_node n) λ _. Stays-ensure_each ns)

  pub Stays-come_up : Stays o up (come_up o)
  unfolding come_up mount_all ensure_nodes
  Stays-come_up = Keeps-bind _ _ (Stays-mount_each _ 0) λ failed.
      Keeps-bind _ _ (Stays-keep_every_message o up) λ _. Keeps-bind _ _ (Stays-ensure_each _) λ _.
        Keeps-bind _ _ (Stays-attach_stdio o up) λ attached.
          Keeps-bind _ _
            (Keeps-result attached _ _ (λ _. Stays-take_ctty o up) (λ e. Stays-error o up _))
            λ _. Keeps-pure failed

  pub Stays-watch_signals : (fuel : ℕ) → Stays o up (watch_signals o fuel)
  unfolding watch_signals
  Stays-watch_signals fuel = Keeps-bind _ _ (Stays-install o up _) λ installed.
      Keeps-result installed _ _ (λ signals. Keeps-pure signals)
        (λ e. Stays-park o up fuel _ (inr refl))

  pub Stays-keep_ctrl_alt_del : Stays o up (keep_ctrl_alt_del o)
  unfolding keep_ctrl_alt_del disable_ctrl_alt_del
  Stays-keep_ctrl_alt_del =
      Keeps-bind _ _ (Stays-check o up _ (λ r. refl) (inl refl))
        λ taken. Keeps-result taken _ _ (λ _. Keeps-pure tt) (λ e. Stays-warn o up _)

  -- The shell that is found is a valid choice.
  pub Meets-find_shell :
      (fuel : ℕ) → Meets (In o up) (find_shell o fuel) (λ r s. In o up s × IsValid r) (Ended o)
  unfolding find_shell Shell.new
  Meets-find_shell fuel =
      Meets-bind {R = λ found s. In o up s × ((specs : List Spec) × (over specs ≡ found))} _ _
        (Meets-bind _ _ (Meets-of_Keeps _ (Stays-available o up _))
          λ usable. Meets-pure (over usable) (λ s h. (h, (usable, refl))))
        λ found.
          Meets-option found _ _
            (λ r e. Meets-pure r (λ s h. (h.0, over-IsValid h.1.0 r (h.1.1 ∙ e))))
            (λ e. record { at = λ s h. (Ends-park o up fuel _ (inr refl)).at s h.0 })
