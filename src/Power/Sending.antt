-- ===== src/Power/Sending.antt =====
-- The signals sent so far, through each step of the way down.
use zevory_linux.Prelude.{ℕ, some, ◌≡◌, refl, ap, ◌∙◌, List, [], ◌∷◌, ◌++◌, ℤ, negsuc, negate}
use zevory_linux.Os.{event, Call, Event, Os, Process, pure, ◌>>=◌, call}
use zevory_linux.Os.Rules.{
  Keeps, Meets, Keeps-of_Meets, Meets-of_Keeps, Meets-call, Meets-pure, Meets-bind, Meets-elim,
}
use zevory_linux.Sys.{signal_group, signal_everyone}
use zevory_linux.Log.Quiet.{IsOutput, Quiet, Keeps-to_console, Keeps-warn, Keeps-error}
use zevory_linux.Proc.{Table, session_leaders}
use zevory_linux.Signal.{Signals}
use zevory_linux.Signal.Refinement.{AnyStop}
use zevory_linux.Os.History.{Extends, Extends-call}
use zevory_linux.Power.{after_kill_secs, hang_up, kill_the_rest}
use zevory_linux.Power.Waiting.{Patient, Keeps-wait_for_silence}

abbrev one_signal : Call → List (ℤ × ℤ)
one_signal (Call.kill pid signal) = (pid, signal) ∷ []
one_signal _ = []

-- The signals sent, with the pid that `kill` was given, the last one first.
abbrev pub sent : List Event → List (ℤ × ℤ)
sent [] = []
sent (e ∷ t) = one_signal e.made ++ sent t

-- Since the trace `base`, the signals sent came to be `l`.
abbrev pub Sent : List Event → List (ℤ × ℤ) → Process → Type 0
Sent base l s = (sent s.trace ≡ l) × Extends base s.trace

abbrev pub everyone : ℤ
everyone = negsuc 0

module _ (o : Os) where
  -- SIGHUP to the group of each of some leaders, in their order, onto what was sent before
  abbrev pub hang_ups : List ℤ → List (ℤ × ℤ) → List (ℤ × ℤ)
  hang_ups [] l = l
  hang_ups (leader ∷ leaders) l = hang_ups leaders ((negate leader, o.sighup) ∷ l)

  -- Asking the children of a table to go: their sessions are hung up, then everyone gets SIGTERM,
  -- and SIGCONT so that the stopped ones read it.
  abbrev pub asked_to_go : Table → List (ℤ × ℤ) → List (ℤ × ℤ)
  asked_to_go t l = (everyone, o.sigcont) ∷ (everyone, o.sigterm) ∷ hang_ups (session_leaders t) l

  abbrev pub killed_off : List (ℤ × ℤ) → List (ℤ × ℤ)
  killed_off l = (everyone, o.sigkill) ∷ l

  pub unsent :
      (base : List Event) (l : List (ℤ × ℤ)) (c : Call)
      → one_signal c ≡ []
      → Keeps (Sent base l) AnyStop (call o c)
  unsent base l c none_sent = Keeps-of_Meets _ (
      Meets-call o c (λ s h. tt)
        (λ s r h e. (
          ap (λ k. k ++ sent s.trace) none_sent ∙ h.0,
          Extends-call base s.trace (event c (some r)) h.1,
        )))

  output_unsent : (c : Call) → IsOutput c → one_signal c ≡ []
  output_unsent (Call.write fd text) _ = refl
  output_unsent (Call.open_file path flags) _ = refl
  output_unsent (Call.write_file path text) _ = refl
  output_unsent (Call.clock_gettime id) _ = refl
  output_unsent _ none_such = absurd none_such

  pub Sent-Quiet : (base : List Event) (l : List (ℤ × ℤ)) → Quiet o (Sent base l) AnyStop
  Sent-Quiet base l = record {
    on_call = λ c is. unsent base l c (output_unsent c is);
    on_kmsg = λ s fd h. h;
  }

  pub Sent-Patient : (base : List Event) (l : List (ℤ × ℤ)) → Patient o (Sent base l) AnyStop
  Sent-Patient base l = record {
    quiet = Sent-Quiet base l;
    on_waitpid = unsent base l _ refl;
    on_poll = λ fd events millis. unsent base l _ refl;
    on_read = λ fd n. unsent base l _ refl;
    cut_off = λ s h. tt;
  }

  pub Meets-kill :
      (base : List Event) (l : List (ℤ × ℤ)) (pid signal : ℤ)
      → Meets
          (Sent base l)
          (call o (Call.kill pid signal) >>= λ r. pure tt)
          (λ _. Sent base ((pid, signal) ∷ l))
          AnyStop
  Meets-kill base l pid signal =
      Meets-bind {R = λ _. Sent base ((pid, signal) ∷ l)} _ _
        (Meets-call o _ (λ s h. tt)
          (λ s r h e.
            (ap (λ k. (pid, signal) ∷ k) h.0, Extends-call base s.trace (event _ (some r)) h.1)))
        λ r. Meets-pure _ (λ s h. h)

  pub Meets-hang_up :
      (base : List Event) (leaders : List ℤ) (l : List (ℤ × ℤ))
      → Meets (Sent base l) (hang_up o leaders) (λ _. Sent base (hang_ups leaders l)) AnyStop
  unfolding hang_up signal_group
  Meets-hang_up base [] l = Meets-pure _ (λ s h. h)
  Meets-hang_up base (leader ∷ leaders) l =
      Meets-bind _ _ (Meets-kill base l (negate leader) o.sighup)
        λ _. Meets-hang_up base leaders ((negate leader, o.sighup) ∷ l)

module _ (o : Os) (fuel : ℕ) (signals : Signals) where
  pub Meets-kill_the_rest :
      (t : Table) (base : List Event) (l : List (ℤ × ℤ))
      → Meets
          (Sent base l)
          (kill_the_rest o fuel signals t)
          (λ _. Sent base (killed_off o l))
          AnyStop
  unfolding kill_the_rest signal_everyone
  Meets-kill_the_rest t base l =
      Meets-bind _ _ (Meets-of_Keeps _ (Keeps-warn o (Sent-Quiet o base l) _)) λ _.
        Meets-bind _ _ (Meets-of_Keeps _ (Keeps-to_console o (Sent-Quiet o base l) _)) λ _.
          Meets-bind _ _ (Meets-kill o base l everyone o.sigkill) λ _.
            Meets-bind _ _
              (Meets-of_Keeps _ (
                Keeps-wait_for_silence o (Sent-Patient o base (killed_off o l)) fuel signals t
                  after_kill_secs))
              λ waited.
                Meets-elim waited.0 _ _ (λ silent. Meets-pure _ (λ s h. h))
                  (λ busy.
                    Meets-bind _ _
                      (Meets-of_Keeps _ (Keeps-error o (Sent-Quiet o base (killed_off o l)) _))
                      λ _. Meets-pure _ (λ s h. h))
