-- ===== src/Power/Protocol.antt =====
-- Which signals `stop_everything` sends, and in which order.
use zevory_linux.Prelude.{
  ℕ, ◌+◌, ◌%◌, ◌^◌, as_u64, Bool, true, false, some, ◌≡◌, refl, ap, subst, ◌∙◌, List, [], ◌++◌, ℤ,
}
use zevory_linux.Os.{Reply, Call, Event, Os, Process}
use zevory_linux.Os.Rules.{
  Meets, Meets-of_Keeps, Meets-pure, Meets-bind, Meets-elim, Meets-mono, Meets-both,
}
use zevory_linux.Sys.{signal_everyone}
use zevory_linux.Log.Quiet.{Keeps-to_console}
use zevory_linux.Proc.{Table, forget_finished, session_leaders}
use zevory_linux.Signal.{Signals, reap_all}
use zevory_linux.Signal.Reaping.{reaps, after_exits}
use zevory_linux.Signal.Refinement.{WaitedOut, AnyStop, reap_all_lem}
use zevory_linux.Power.Verdicts.{Rests, wait_for_silence_lem}
use zevory_linux.Os.History.{Extends, Extends-refl}
use zevory_linux.Power.{wait_for_silence, grace_secs, kill_the_rest, terminate, stop_everything}
use zevory_linux.Power.Waiting.{Keeps-reap_all, Keeps-wait_for_silence}
use zevory_linux.Power.Sending.{
  sent, Sent, everyone, asked_to_go, killed_off, unsent, Sent-Quiet, Sent-Patient, Meets-kill,
  Meets-hang_up, Meets-kill_the_rest,
}

module _ (o : Os) where
  -- Reaping a table at the start leaves `u`, and `left` tells whether children are left: the last
  -- call is a `waitpid` that says so.
  pub record Reaping (before : List Event) (t u : Table) (left : Bool) (after : List Event)
      : Type 0 where
    pub later : Extends before after
    pub none_sent : sent after ≡ sent before
    pub waited_out : WaitedOut o left after
    pub exits : List (ℤ × ℤ)
    pub reaped : reaps after ≡ exits ++ reaps before
    pub kept : u ≡ forget_finished (after_exits o t exits)

  -- A wait of `secs` seconds that began at `begun` has ended at `ended`, with the answer `silent`.
  abbrev pub Waited : ℕ → List Event → Bool → List Event → Type 0
  Waited secs begun silent ended =
      Extends begun ended
      × ((first : Reply) × (o.answer begun (Call.clock_gettime o.clock_monotonic) ≡ some first)
          × Rests o ((as_u64 first.out + secs) % 2 ^ 64) silent ended)

  -- The children of `u` were asked to go, after `start`; then no child is left within the time
  -- that they have, or this time is up and everyone is killed.
  pub data Stopping (u : Table) (start : List Event) (s : Process) : Type 0 where
    gone :
        (asked : List Event)
        → Extends start asked
        → sent asked ≡ asked_to_go o u (sent start)
        → Waited 5 asked true s.trace
        → sent s.trace ≡ asked_to_go o u (sent start)
        → Stopping u start s
    killed :
        (asked ended : List Event)
        → Extends start asked
        → sent asked ≡ asked_to_go o u (sent start)
        → Waited 5 asked false ended
        → sent ended ≡ asked_to_go o u (sent start)
        → Sent ended (killed_off o (asked_to_go o u (sent start))) s
        → Stopping u start s

module _ (o : Os) (fuel : ℕ) (signals : Signals) where
  -- A wait sends nothing, and its answer has its grounds.
  Meets-wait :
      (begun : List Event) (t : Table) (secs : ℕ)
      → Meets
          (λ s. s.trace ≡ begun)
          (wait_for_silence o fuel signals t secs)
          (λ r s. Sent begun (sent begun) s × Waited o secs begun r.0 s.trace)
          AnyStop
  Meets-wait begun t secs =
      Meets-mono _ (λ s h. ((ap sent h, ([], h)), h)) (λ r s h. (h.0, (h.0.1, h.1))) (λ why s h. tt)
        (Meets-both _
          (Meets-of_Keeps _
            (Keeps-wait_for_silence o (Sent-Patient o begun (sent begun)) fuel signals t secs))
          (wait_for_silence_lem o fuel signals begun t secs))

  Meets-terminate :
      (start : List Event) (t : Table)
      → Meets (λ s. s.trace ≡ start) (terminate o fuel signals t) (λ _. Stopping o t start) AnyStop
  unfolding terminate signal_everyone
  Meets-terminate start t =
      Meets-bind _ _
        (Meets-mono _ (λ s h. (ap sent h, ([], h))) (λ _ s h. h) (λ why s h. tt)
          (Meets-of_Keeps _ (Keeps-to_console o (Sent-Quiet o start (sent start)) _)))
        λ _. Meets-bind _ _ (Meets-hang_up o start (session_leaders t) (sent start)) λ _.
          Meets-bind _ _ (Meets-kill o start _ everyone o.sigterm) λ _.
            Meets-bind _ _ (Meets-kill o start _ everyone o.sigcont) λ _. record {
              at = λ s h.
                  (Meets-bind {P = λ s'. s'.trace ≡ s.trace} _ _ (Meets-wait s.trace t grace_secs)
                      λ waited.
                        Meets-elim waited.0 _ _
                          (λ silent. Meets-pure _ λ s' g.
                            gone s.trace h.1 h.0
                              (subst (λ b. Waited o 5 s.trace b s'.trace) silent g.1) (g.0.0 ∙ h.0))
                          (λ busy. killing s h waited busy)).at
                    s refl;
            }
    where
      killing :
          (s : Process)
          → Sent start (asked_to_go o t (sent start)) s
          → (waited : Bool × Table) → waited.0 ≡ false
          → Meets
              (λ s'. Sent s.trace (sent s.trace) s' × Waited o 5 s.trace waited.0 s'.trace)
              (kill_the_rest o fuel signals waited.1)
              (λ _. Stopping o t start)
              AnyStop
      killing s h waited busy = record {
        at = λ s' g.
            let asked_only = g.0.0 ∙ h.0 in
            (Meets-mono _ (λ _ e. e)
                (λ _ s'' sent_all.
                  killed s.trace s'.trace h.1 h.0
                    (subst (λ b. Waited o 5 s.trace b s'.trace) busy g.1) asked_only sent_all)
                (λ why s'' e. tt)
                (Meets-kill_the_rest o fuel signals waited.1 s'.trace
                  (asked_to_go o t (sent start)))).at
              s' (asked_only, Extends-refl s'.trace);
      }

  Meets-reap_all :
      (before : List Event) (t : Table)
      → Meets
          (λ s. s.trace ≡ before)
          (reap_all o fuel t)
          (λ r s. Reaping o before t r.1 r.0.children_left s.trace)
          AnyStop
  Meets-reap_all before t =
      Meets-mono _ (λ s h. ((ap sent h, ([], h)), ap reaps h))
        (λ r s ((quiet, later), (exits, reaped, kept, known, waited)). record {
          later = later;
          none_sent = quiet;
          waited_out = waited;
          exits = exits;
          reaped = reaped;
          kept = kept;
        })
        (λ why s h. tt)
        (Meets-both _
          (Meets-of_Keeps _ (
            Keeps-reap_all o (Sent-Quiet o before (sent before)) (unsent o before _ _ refl)
              (λ s h. tt) fuel t))
          (reap_all_lem o fuel t (reaps before)))

  -- What is done about the children that the first reaping left
  abbrev pub Then : Bool → Table → List Event → Process → Type 0
  Then false u start s = s.trace ≡ start
  Then true u start s = Stopping o u start s

  -- Whatever the kernel answers and for any fuel, where stop_everything returns, it has first
  -- reaped the children that waitpid gave, sending nothing, up to a waitpid that tells whether
  -- children are left. Where none are, it has called nothing more. Where some are, it has then
  -- sent a hang-up to the group of each session leader in the table that these exits leave, in the
  -- table's order, and SIGTERM and SIGCONT to everyone, and has waited. Either this wait ended
  -- with a waitpid that fails with ECHILD and nothing more was sent or called, or it ended with a
  -- reading of the clock not before its first reading plus 5 seconds, as 64 bits, and then SIGKILL
  -- was sent to everyone and nothing else.
  pub stop_everything_lem :
      (before : List Event) (t : Table)
      → Meets
          (λ s. s.trace ≡ before)
          (stop_everything o fuel signals t)
          (λ _ s.
            (u : Table) × (left : Bool) × (start : List Event) × Reaping o before t u left start
            × Then left u start s)
          AnyStop
  unfolding stop_everything
  stop_everything_lem before t = Meets-bind _ _ (Meets-reap_all before t) λ reaped.
      Meets-elim reaped.0.children_left _ _
        (λ some_left. record {
          at = λ s h.
              (Meets-mono _ (λ _ e. e)
                  (λ _ s' stopping. (
                    reaped.1,
                    true,
                    s.trace,
                    subst (λ b. Reaping o before t reaped.1 b s.trace) some_left h,
                    stopping,
                  ))
                  (λ why s' e. tt) (Meets-terminate s.trace reaped.1)).at
                s refl;
        })
        (λ none_left. Meets-pure _ (λ s h. (
          reaped.1,
          false,
          s.trace,
          subst (λ b. Reaping o before t reaped.1 b s.trace) none_left h,
          refl,
        )))
