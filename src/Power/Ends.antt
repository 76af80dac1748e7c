-- ===== src/Power/Ends.antt =====
-- Going down ends: no wait of `execute` goes on for ever.
use zevory_linux.Prelude.{[], ◌∷◌, none, List, ◌≡◌, refl, ℕ, ◌<◌, List, [], ◌∷◌, ℤ}
use zevory_linux.Os.{Event, Stop, never_returned, Call, Os, Process, M, call}
use zevory_linux.Os.Rules.{
  Meets, Meets-mono, Meets-of_Keeps, Meets-bind, Meets-call, Meets-pure, Keeps, Keeps-of_Meets,
  Meets-call, Meets-call_as, Keeps-pure, Keeps-bind, Keeps-elim,
}
use zevory_linux.Sys.{signal_group, signal_everyone, flush_filesystems, hand_over_to_kernel}
use zevory_linux.Log.Quiet.{Quiet, Keeps-info, Keeps-warn, Keeps-error, Keeps-to_console}
use zevory_linux.Proc.{Table, session_leaders}
use zevory_linux.Signal.{Signals}
use zevory_linux.Signal.Termination.{Unanswered, GivesAtMost, NoAnswer, reap_all_ends}
use zevory_linux.Power.Actions.{kernel_command, Action}
use zevory_linux.Power.{
  grace_secs, after_kill_secs, hang_up, kill_the_rest, terminate, stop_everything, execute,
}
use zevory_linux.Power.Silence.{GoesOn, wait_for_silence_ends}

abbrev Anything : Process → Type 0
Anything s = Unit

-- A run that is not cut off
abbrev pub Ends : Os → {A : Type 0} → M A → Type 0
Ends o m = Keeps Anything (NoAnswer o) m

module _ (o : Os) where
  Ends-call : (c : Call) → Ends o (call o c)
  Ends-call c = Keeps-of_Meets _ (Meets-call_as o c (λ s h e. (refl, (refl, e))) (λ s r h e. tt))

  quiet : Quiet o Anything (NoAnswer o)
  quiet = record { on_call = λ c is. Ends-call c; on_kmsg = λ s fd h. tt }

  Ends-hang_up : (leaders : List ℤ) → Ends o (hang_up o leaders)
  unfolding hang_up signal_group
  Ends-hang_up [] = Keeps-pure tt
  Ends-hang_up (l ∷ ls) =
      Keeps-bind _ _ (Keeps-bind _ _ (Ends-call _) λ _. Keeps-pure _) λ _. Ends-hang_up ls

  Ends-signal_everyone : (signal : ℤ) → Ends o (signal_everyone o signal)
  unfolding signal_everyone
  Ends-signal_everyone signal = Keeps-bind _ _ (Ends-call _) λ _. Keeps-pure _

module _ (o : Os) (a : Action) where
  -- The newest call asks the kernel for the action.
  abbrev pub AskedKernel : List Event → Type 0
  AskedKernel [] = ⊥
  AskedKernel (e ∷ s) = e.made ≡ Call.reboot (kernel_command o a)

  abbrev pub NeverReturned : Stop → Process → Type 0
  NeverReturned why s = (why ≡ never_returned) × AskedKernel s.trace

module _ (o : Os) (dead n fuel : ℕ) (signals : Signals) (few : GivesAtMost o dead)
    (after_grace : GoesOn o n grace_secs) (after_kill : GoesOn o n after_kill_secs)
    (enough : dead < fuel) (enough_rounds : n < fuel) where
  Ends-kill_the_rest : (t : Table) → Ends o (kill_the_rest o fuel signals t)
  unfolding kill_the_rest
  Ends-kill_the_rest t = Keeps-bind _ _ (Keeps-warn o (quiet o) _) λ _.
      Keeps-bind _ _ (Keeps-to_console o (quiet o) _) λ _.
        Keeps-bind _ _ (Ends-signal_everyone o _) λ _.
          Keeps-bind _ _
            (Keeps-of_Meets _ (
              wait_for_silence_ends o dead n after_kill_secs few after_kill fuel signals t enough
                enough_rounds))
            λ waited.
              Keeps-elim waited.0 _ _ (Keeps-pure _)
                (Keeps-bind _ _ (Keeps-error o (quiet o) _) λ _. Keeps-pure _)

  Ends-terminate : (t : Table) → Ends o (terminate o fuel signals t)
  unfolding terminate
  Ends-terminate t = Keeps-bind _ _ (Keeps-to_console o (quiet o) _) λ _.
      Keeps-bind _ _ (Ends-hang_up o (session_leaders t)) λ _.
        Keeps-bind _ _ (Ends-signal_everyone o _) λ _.
          Keeps-bind _ _ (Ends-signal_everyone o _) λ _.
            Keeps-bind _ _
              (Keeps-of_Meets _ (
                wait_for_silence_ends o dead n grace_secs few after_grace fuel signals t enough
                  enough_rounds))
              λ waited. Keeps-elim waited.0 _ _ (Keeps-pure _) (Ends-kill_the_rest waited.1)

  Ends-stop_everything : (t : Table) → Ends o (stop_everything o fuel signals t)
  unfolding stop_everything
  Ends-stop_everything t =
      Keeps-bind _ _ (Keeps-of_Meets _ (reap_all_ends o dead few fuel t enough))
        λ reaped. Keeps-elim reaped.0.children_left _ _ (Ends-terminate reaped.1) (Keeps-pure _)

  -- Where the kernel has dead many children to give at most and the clock, from any reading to one
  -- that comes after n polls, goes on by the grace time and by the time after SIGKILL, any fuel
  -- above dead and n is enough for execute: it returns or stops at a call that does not return.
  pub execute-Ends : (a : Action) (t : Table) → Ends o (execute o fuel signals a t)
  unfolding execute flush_filesystems hand_over_to_kernel
  execute-Ends a t = Keeps-bind _ _ (Keeps-to_console o (quiet o) _) λ _.
      Keeps-bind _ _ (Keeps-info o (quiet o) _) λ _. Keeps-bind _ _ (Ends-stop_everything t) λ t'.
        Keeps-bind _ _ (Keeps-bind _ _ (Ends-call o _) λ _. Keeps-pure _) λ _.
          Keeps-bind _ _ (Keeps-info o (quiet o) _) λ _.
            Keeps-bind _ _ (Keeps-bind _ _ (Ends-call o _) λ _. Keeps-pure _)
              λ failure. Keeps-pure _

  module _ (a : Action)
      (others_return : (s : List Event) (c : Call)
        → o.answer s c ≡ none
        → c ≡ Call.reboot (kernel_command o a)) where
    Unanswered-asked : (t : List Event) → Unanswered o t → AskedKernel o a t
    Unanswered-asked [] h = absurd h
    Unanswered-asked (e ∷ t) h = others_return t e.made h.1

    on_the_way :
        {A : Type 0} (m : M A) → Ends o m → Meets Anything m (λ _. Anything) (NeverReturned o a)
    on_the_way m k =
        Meets-mono m (λ s h. h) (λ _ s h. h) (λ why s h. (h.0, Unanswered-asked s.trace h.1))
          (Meets-of_Keeps m k)

    -- Where the kernel has dead many children to give at most, the clock goes on by the grace time
    -- and by the time after SIGKILL, the fuel is above dead and n, and every call but reboot with
    -- the action's command is answered, execute ends by asking the kernel for the action, whatever
    -- children there are: this is its newest call, and it never returns or, where execute returns,
    -- was answered.
    pub execute_hands_over :
        (t : Table)
        → Meets
            (λ _. Unit)
            (execute o fuel signals a t)
            (λ _ s. AskedKernel o a s.trace)
            (NeverReturned o a)
    unfolding execute flush_filesystems hand_over_to_kernel
    execute_hands_over t = Meets-bind _ _ (on_the_way _ (Keeps-to_console o (quiet o) _)) λ _.
        Meets-bind _ _ (on_the_way _ (Keeps-info o (quiet o) _)) λ _.
          Meets-bind _ _ (on_the_way _ (Ends-stop_everything t)) λ t'.
            Meets-bind _ _ (on_the_way _ (Keeps-bind _ _ (Ends-call o _) λ _. Keeps-pure _)) λ _.
              Meets-bind _ _ (on_the_way _ (Keeps-info o (quiet o) _)) λ _.
                Meets-bind {R = λ _ s. AskedKernel o a s.trace} _ _
                  (Meets-bind {R = λ _ s. AskedKernel o a s.trace} _ _
                    (Meets-call o _ (λ s h. (refl, refl)) (λ s r h e. refl))
                    λ r. Meets-pure _ (λ s h. h))
                  λ failure. Meets-pure _ (λ s h. h)
