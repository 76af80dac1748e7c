-- ===== src/Log/Fallback.antt =====
-- Where a log line goes: `emit` with the kernel's log and stderr.
use zevory_linux.Prelude.{
  List, [], some, ◌≡◌, refl, ap, subst, ◌++◌, Bool, true, false, ℤ, ◌==ℤ◌, ==ℤ_iff, ◌⊎◌, inl, inr,
}
use zevory_linux.Os.{event, Event, Text, Os, Process, pure, ◌>>=◌}
use zevory_linux.Os.Rules.{
  Keeps-of_Meets, Meets-of_Keeps, Meets-both, Meets, Meets-bind, Meets-call, Meets-elim,
  Meets-given, Meets-mono, Meets-pure,
}
use zevory_linux.Os.History.{Extends, Extends-call, Extends-trans}
use zevory_linux.Log.Quiet.{Quiet, Keeps-write_fd, Keeps-write_to_kmsg}
use zevory_linux.Sys.{write_fd}
use zevory_linux.Sys.Io.{bytes}
use zevory_linux.Sys.Written.{TakesWhatIsGiven, Wrote, write_fd-Wrote, output, NeverCut}
use zevory_linux.Log.{Level, line_for, not_open_yet, write_to_kmsg, emit}
use zevory_linux.Log.Opening.{IsLog, NoLog, Same, Meets-kmsg, NoLog-Found, IsLog-Found}

abbrev pub plain : Text → Text
plain msg = bytes "zevinit: " ++ (msg ++ bytes "\n")

module _ (o : Os) (level : Level) (msg : Text) (first : Process) where
  -- The line is in the kernel's log; or there is no log, and it was given to stderr; or the log
  -- took a part of it only, and it was given to stderr from the start.
  pub data Emitted (s : Process) : Type 0 where
    in_log :
        (fd : ℤ)
        → ¬ (fd ≡ not_open_yet)
        → IsLog o fd first
        → output fd s.trace ≡ output fd first.trace ++ line_for level msg
        → Emitted s
    no_log :
        (all : Bool)
        → NoLog o first
        → Extends first.trace s.trace
        → Wrote o.stderr_fileno (output o.stderr_fileno first.trace) (plain msg) all s
        → Emitted s
    cut_short :
        (fd : ℤ)
        → ¬ (fd ≡ not_open_yet)
        → IsLog o fd first
        → (between : Process) → Extends first.trace between.trace
        → Wrote fd (output fd first.trace) (line_for level msg) false between
        → Extends between.trace s.trace
        → (all : Bool)
        → Wrote o.stderr_fileno (output o.stderr_fileno between.trace) (plain msg) all s
        → Emitted s

  -- The answer of write_to_kmsg tells whether the line is in the log.
  abbrev InLog : Bool → Process → Type 0
  InLog true s =
      (fd : ℤ) × ¬ (fd ≡ not_open_yet)
      × IsLog o fd first
      × (output fd s.trace ≡ output fd first.trace ++ line_for level msg)
  InLog false s =
      (NoLog o first × Same o first s)
      ⊎ ((fd : ℤ) × ¬ (fd ≡ not_open_yet)
          × IsLog o fd first
          × Wrote fd (output fd first.trace) (line_for level msg) false s)

  module _ (bounded : TakesWhatIsGiven o) where
    to_in_log :
        (fd : ℤ)
        → ¬ (fd ≡ not_open_yet)
        → IsLog o fd first
        → (all : Bool) (s : Process) → Wrote fd (output fd first.trace) (line_for level msg) all s
        → InLog all s
    to_in_log fd known is_log true s w = (fd, known, is_log, w.whole refl)
    to_in_log fd known is_log false s w = inr (fd, known, is_log, w)

    Later-Quiet : (base : List Event) → Quiet o (λ s. Extends base s.trace) NeverCut
    Later-Quiet base = record {
      on_call = λ c is. Keeps-of_Meets _ (
          Meets-call o c (λ s h. refl) (λ s r h e. Extends-call base s.trace (event c (some r)) h));
      on_kmsg = λ s fd h. h;
    }

    Meets-write_to_kmsg : Meets (λ s. s ≡ first) (write_to_kmsg o level msg) InLog NeverCut
    unfolding write_to_kmsg
    Meets-write_to_kmsg = Meets-bind _ _ (Meets-kmsg o first) λ fd. Meets-given _ _ λ found.
        Meets-elim (fd ==ℤ not_open_yet) _ _
          (λ closed. Meets-pure false (λ s same.
            inl (NoLog-Found o first fd found ((==ℤ_iff fd not_open_yet).0 closed), same)))
          (λ is_open.
            Meets-mono _ (λ s same. same fd)
              (λ all s w.
                let unlike : ¬ (fd ≡ not_open_yet) = λ e. cc ((==ℤ_iff fd not_open_yet).1 e) in
                to_in_log fd unlike (IsLog-Found o first fd found unlike) all s w)
              (λ why s e. e)
              (write_fd-Wrote o fd (line_for level msg) (output fd first.trace) bounded))

    -- Its calls come on top of those before.
    Meets-write_to_kmsg_later :
        Meets
          (λ s. s ≡ first)
          (write_to_kmsg o level msg)
          (λ all s. Extends first.trace s.trace × InLog all s)
          NeverCut
    Meets-write_to_kmsg_later =
        Meets-mono _ (λ s h. (([], ap (λ p. p.trace) h), h)) (λ all s h. h) (λ why s e. e)
          (Meets-both _
            (Meets-of_Keeps _ (Keeps-write_to_kmsg o (Later-Quiet first.trace) level msg))
            Meets-write_to_kmsg)

    to_stderr :
        Meets
          (λ s. Extends first.trace s.trace × InLog false s)
          (write_fd o o.stderr_fileno (plain msg) >>= λ _. pure tt)
          (λ _. Emitted)
          NeverCut
    to_stderr = record {
      at = λ s h.
          (Meets-bind {P = λ s'. s'.trace ≡ s.trace} _ _
              (Meets-mono _ (λ s' e. (([], e), ap (output o.stderr_fileno) e)) (λ all s' w. w)
                (λ why s' e. e)
                (Meets-both _ (Meets-of_Keeps _ (Keeps-write_fd o (Later-Quiet s.trace) _ _)) (
                  write_fd-Wrote o o.stderr_fileno (plain msg) (output o.stderr_fileno s.trace)
                    bounded)))
              λ all. Meets-pure tt λ s' (later, w). elim h.1 [
                | inl (none_open, same) ↦
                    no_log all none_open (Extends-trans first.trace s.trace s'.trace h.0 later) (
                      subst (λ b. Wrote o.stderr_fileno b (plain msg) all s') (same o.stderr_fileno)
                        w)
                | inr (fd, known, is_log, part) ↦ cut_short fd known is_log s h.0 part later all w
              ]).at
            s refl;
    }

    -- Where write takes no more than it is given, emit returns unless a call does not, and then:
    -- the whole line, in order and once, has gone out on the descriptor of the kernel's log, the
    -- one that was open before or, where none was, the one that opening /dev/kmsg gave now; or
    -- none was open and opening it failed, and the message was then given to stderr; or the log
    -- took only a proper part of the line from the front and refused the rest, and the message was
    -- then given to stderr from its start. Given to stderr means that all of it has gone out there
    -- in order and once, or a part from the front, and that the last call then is a write of the
    -- rest to stderr, which was refused.
    pub emit_lem : Meets (λ s. s ≡ first) (emit o level msg) (λ _. Emitted) NeverCut
    unfolding emit
    emit_lem = Meets-bind _ _ Meets-write_to_kmsg_later (elim [
      | true ↦ Meets-pure tt λ s (later, (fd, known, is_log, out)). in_log fd known is_log out
      | false ↦ to_stderr
    ])
