-- ===== src/Lifecycle/Shutdown.antt =====
-- Going down: power.rs keeps to its signals, flushes, and only then hands the machine over.
use zevory_linux.Prelude.{
  ℕ, zero, suc, ◌≡◌, refl, ◌⊎◌, inl, inr, Option, none, some, ℤ, List, [], ◌∷◌, leb,
}
use zevory_linux.Os.{Call, Reply, Os, M}
use zevory_linux.Os.Rules.{
  Keeps-attempt, Meets, Keeps-pure, Keeps-bind, Keeps-elim, Meets-bind, Meets-of_Keeps,
}
use zevory_linux.Sys.{
  signal_group, signal_everyone, flush_filesystems, hand_over_to_kernel, poll_readable, read_signal,
}
use zevory_linux.Sys.Io.{Result, ok, err}
use zevory_linux.Proc.{Table, session_leaders}
use zevory_linux.Signal.{Signals, Request, child_changed, reload, shutdown, unknown, classify, wait}
use zevory_linux.Power.Actions.{Action}
use zevory_linux.Power.{
  hang_up, note_arrival, wait_rounds, wait_for_silence, kill_the_rest, terminate, stop_everything,
  execute,
}
use zevory_linux.Lifecycle.{down, flushed, turn, In, Ended}
use zevory_linux.Lifecycle.Calls.{Moves-call_then, Stays, Stays-out_of_fuel}
use zevory_linux.Lifecycle.Logging.{
  Stays-call_then, Stays-error, Stays-warn, Stays-info, Stays-to_console, Stays-monotonic_secs,
}
use zevory_linux.Lifecycle.Children.{Stays-reap_all}

module _ (o : Os) (a : Action) where
  Stays-signal_everyone :
      (signal : ℤ)
      → ((signal ≡ o.sigterm) ⊎ (signal ≡ o.sigcont) ⊎ (signal ≡ o.sigkill))
      → Stays o (down a) (signal_everyone o signal)
  unfolding signal_everyone
  Stays-signal_everyone signal which =
      Stays-call_then o (down a) _ _ (λ r. refl) (inr (refl, which))

  Stays-hang_up : (leaders : List ℤ) → Stays o (down a) (hang_up o leaders)
  unfolding hang_up signal_group
  Stays-hang_up [] = Keeps-pure tt
  Stays-hang_up (l ∷ ls) =
      Keeps-bind _ _ (Stays-call_then o (down a) _ _ (λ r. refl) (inl refl)) λ _. Stays-hang_up ls

  -- Nothing that is read on the way down changes the way down.
  read_quiet : (fd : ℤ) (n : ℕ) (r : Option Reply) → turn o (down a) (Call.read fd n) r ≡ down a
  read_quiet fd n none = refl
  read_quiet fd n (some r) = refl

  Stays-wait : (signals : Signals) (millis : ℤ) → Stays o (down a) (wait o signals millis)
  unfolding wait poll_readable read_signal
  Stays-wait signals millis =
      Keeps-attempt _ _ (Stays-call_then o (down a) _ _ (λ r. refl) tt) λ readable.
        Keeps-elim readable _ _
          (Keeps-attempt _ _
            (Stays-call_then o (down a) _ _ (read_quiet signals.fd o.siginfo_size) tt)
            λ signal. Keeps-pure _)
          (Keeps-pure _)

  Stays-request :
      (r : Request) {A : Type 0} (m n : M A)
      → Stays o (down a) m
      → Stays o (down a) n
      → Stays o (down a) (elim r [ child_changed ↦ m | _ ↦ n ])
  Stays-request child_changed m n km kn = km
  Stays-request reload m n km kn = kn
  Stays-request (shutdown b) m n km kn = kn
  Stays-request (unknown s) m n km kn = kn

  Stays-note_arrival : (r : Result (Option ℤ)) → Stays o (down a) (note_arrival o r)
  unfolding note_arrival
  Stays-note_arrival (ok (some s)) =
      Stays-request (classify o s) _ _ (Keeps-pure tt) (Stays-info o (down a) _)
  Stays-note_arrival (ok none) = Keeps-pure tt
  Stays-note_arrival (err e) = Keeps-pure tt

module _ (o : Os) (a : Action) (fuel : ℕ) (signals : Signals) where
  Stays-wait_rounds :
      (rounds : ℕ) (t : Table) (deadline : ℕ)
      → Stays o (down a) (wait_rounds o fuel signals rounds t deadline)
  unfolding wait_rounds
  Stays-wait_rounds zero t deadline = Stays-out_of_fuel o (down a)
  Stays-wait_rounds (suc rounds) t deadline =
      Keeps-bind _ _ (Stays-reap_all o (down a) fuel t tt) λ reaped.
        Keeps-elim reaped.0.children_left _ _
          (Keeps-bind _ _ (Stays-monotonic_secs o (down a)) λ now.
            Keeps-elim (leb deadline now) _ _ (Keeps-pure _) (
              Keeps-bind _ _ (Stays-wait o a signals _) λ arrived.
                Keeps-bind _ _ (Stays-note_arrival o a arrived)
                  λ _. Stays-wait_rounds rounds reaped.1 deadline))
          (Keeps-pure _)

  Stays-wait_for_silence :
      (t : Table) (secs : ℕ) → Stays o (down a) (wait_for_silence o fuel signals t secs)
  unfolding wait_for_silence
  Stays-wait_for_silence t secs =
      Keeps-bind _ _ (Stays-monotonic_secs o (down a)) λ now. Stays-wait_rounds fuel t _

  Stays-kill_the_rest : (t : Table) → Stays o (down a) (kill_the_rest o fuel signals t)
  unfolding kill_the_rest
  Stays-kill_the_rest t = Keeps-bind _ _ (Stays-warn o (down a) _) λ _.
      Keeps-bind _ _ (Stays-to_console o (down a) _) λ _.
        Keeps-bind _ _ (Stays-signal_everyone o a _ (inr (inr refl))) λ _.
          Keeps-bind _ _ (Stays-wait_for_silence t _) λ waited.
            Keeps-elim waited.0 _ _ (Keeps-pure _)
              (Keeps-bind _ _ (Stays-error o (down a) _) λ _. Keeps-pure _)

  Stays-terminate : (t : Table) → Stays o (down a) (terminate o fuel signals t)
  unfolding terminate
  Stays-terminate t = Keeps-bind _ _ (Stays-to_console o (down a) _) λ _.
      Keeps-bind _ _ (Stays-hang_up o a (session_leaders t)) λ _.
        Keeps-bind _ _ (Stays-signal_everyone o a _ (inl refl)) λ _.
          Keeps-bind _ _ (Stays-signal_everyone o a _ (inr (inl refl))) λ _.
            Keeps-bind _ _ (Stays-wait_for_silence t _)
              λ waited. Keeps-elim waited.0 _ _ (Keeps-pure _) (Stays-kill_the_rest waited.1)

  Stays-stop_everything : (t : Table) → Stays o (down a) (stop_everything o fuel signals t)
  unfolding stop_everything
  Stays-stop_everything t =
      Keeps-bind _ _ (Stays-reap_all o (down a) fuel t tt)
        λ reaped. Keeps-elim reaped.0.children_left _ _ (Stays-terminate reaped.1) (Keeps-pure _)

  -- From the moment that an action was asked for, execute of this action makes allowed calls only,
  -- and where it returns, because the kernel refused, the filesystems have been flushed on the way
  -- down for this action.
  pub execute-Orderly :
      (t : Table)
      → Meets (In o (down a)) (execute o fuel signals a t) (λ _. In o (flushed a)) (Ended o)
  unfolding execute flush_filesystems hand_over_to_kernel
  execute-Orderly t = Meets-bind _ _ (Meets-of_Keeps _ (Stays-to_console o (down a) _)) λ _.
      Meets-bind _ _ (Meets-of_Keeps _ (Stays-info o (down a) _)) λ _.
        Meets-bind _ _ (Meets-of_Keeps _ (Stays-stop_everything t)) λ t'.
          Meets-bind _ _ (Moves-call_then o (down a) _ _ (λ _. flushed a) tt (λ r. refl)) λ _.
            Meets-of_Keeps _ (
              Keeps-bind _ _ (Stays-info o (flushed a) _) λ _.
                Keeps-bind _ _ (Stays-call_then o (flushed a) _ _ (λ r. refl) (inl refl))
                  λ failure. Keeps-pure _)
