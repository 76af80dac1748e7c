-- ===== src/Lifecycle/Watched.antt =====
-- No shell is started before the signals are blocked and read through a descriptor.
use zevory_linux.Prelude.{
  ℕ, ◌≡◌, refl, ◌⊎◌, inl, inr, List, [], ◌∷◌, ◌++◌, Bool-cases, false, some, ℤ, pos, negsuc, ◌==ℤ◌,
  ==ℤ_iff, is_negative, arith,
}
use zevory_linux.Os.{
  Call, Reply, Event, Os, Process, Stop, exited, Outcome, done, stopped, M, pure, call,
}
use zevory_linux.Os.Rules.{
  After, Meets-both, Keeps-elim, Meets, Keeps-of_Meets, Meets-of_Keeps, Meets-call, Meets-pure,
  Meets-bind, Meets-mono, Keeps-bind,
}
use zevory_linux.Sys.{sigset_of, check, checked, checked_fd, block_signals, signal_fd, getpid}
use zevory_linux.Sys.Io.{IoError, Result, ok, err, try, bytes, display_error}
use zevory_linux.Log.Quiet.{Keeps-info}
use zevory_linux.Proc
use zevory_linux.Signal.{Signals, install, watched}
use zevory_linux.Main.Setup.{park, watch_signals}
use zevory_linux.Main.Shells.{Gives-park}
use zevory_linux.Main.{run, main}
use zevory_linux.Lifecycle.Whole.{boot}
use zevory_linux.Lifecycle.Lasting.{
  Lasts, Lasting, Lasting-Quiet, Lasts-call_then, Lasts-stop, Lasts-park, IsNoFork,
}
use zevory_linux.Lifecycle.Lasting.ComingUp.{
  Lasts-come_up, Lasts-keep_ctrl_alt_del, Lasts-banner, Lasts-find_shell,
}
use zevory_linux.Lifecycle.Lasting.Serving.{Lasts-start}
use zevory_linux.Lifecycle.Lasting.GoingDown.{Lasts-serve}

module _ (o : Os) where
  -- The watched signals were blocked.
  abbrev pub Blocked : List Event → Type 0
  Blocked [] = ⊥
  Blocked (e ∷ t) =
      ((e.made ≡ Call.sigprocmask o.sig_block (sigset_of (watched o)))
        × ((r : Reply) × (e.reply ≡ some r) × (r.rc ≡ pos 0)))
      ⊎ Blocked t

  -- A descriptor for them was opened, after they were blocked.
  abbrev pub Watching : List Event → Type 0
  Watching [] = ⊥
  Watching (e ∷ t) =
      ((e.made ≡ Call.signalfd (negsuc 0) (sigset_of (watched o)) o.sfd_cloexec)
        × ((r : Reply) × (e.reply ≡ some r) × (is_negative r.rc ≡ false))
        × Blocked t)
      ⊎ Watching t

  -- Every fork came after that.
  abbrev pub WatchesFirst : List Event → Type 0
  WatchesFirst [] = Unit
  WatchesFirst (e ∷ t) = (e.made ≡ Call.fork → Watching t) × WatchesFirst t

  abbrev Before : Process → Type 0
  Before s = WatchesFirst s.trace

  abbrev Since : Process → Type 0
  Since s = Watching s.trace × WatchesFirst s.trace

  no_fork : (c : Call) → IsNoFork c → c ≡ Call.fork → ⊥
  no_fork Call.fork other e = other
  no_fork _ other e = cc

  Before-Lasting : Lasting o Before
  Before-Lasting = record {
    on_call = λ c other. Keeps-of_Meets _ (
        Meets-call o c (λ s h. (λ e. absurd (no_fork c other e), h))
          (λ s r h e'. (λ e. absurd (no_fork c other e), h)));
    on_kmsg = λ s fd h. h;
  }

  Since-call : (c : Call) → Lasts Since (call o c)
  Since-call c =
      Keeps-of_Meets _ (
        Meets-call o c (λ s h. (inr h.0, (λ e. h.0, h.1))) (λ s r h e. (inr h.0, (λ e'. h.0, h.1))))

  Since-Lasting : Lasting o Since
  Since-Lasting = record { on_call = λ c other. Since-call c; on_kmsg = λ s fd h. h }

  abbrev Stopped : Stop → Process → Type 0
  Stopped why = Before

  Meets-try :
      {A B : Type 0} {P : Process → Type 0} {Q : Result B → Process → Type 0} (r : Result A)
      (f : A → M (Result B))
      → ((a : A) → r ≡ ok a → Meets P (f a) Q Stopped)
      → ((e : IoError) → (s : Process) → P s → Q (err e) s)
      → Meets P (try r f) Q Stopped
  Meets-try (ok a) f good bad = good a refl
  Meets-try (err e) f good bad = Meets-pure (err e) (bad e)

  checked_ok : (r : Reply) → checked r ≡ ok tt → r.rc ≡ pos 0
  unfolding checked
  checked_ok r e = elim (Bool-cases (r.rc ==ℤ pos 0)) [
    | inl zero ↦ (==ℤ_iff r.rc (pos 0)).0 zero
    | inr other ↦ ground arith
  ]

  opened_ok : (r : Reply) (fd : ℤ) → checked_fd r ≡ ok fd → is_negative r.rc ≡ false
  unfolding checked_fd
  opened_ok r fd e = elim (Bool-cases (is_negative r.rc)) [
    | inl below ↦ ground arith
    | inr fine ↦ fine
  ]

  Meets-block_signals :
      Meets Before
        (block_signals o (watched o))
        (λ r s. Before s × (r ≡ ok tt → Blocked s.trace))
        Stopped
  unfolding block_signals check
  Meets-block_signals =
      Meets-bind {R = λ r s. Before s × (checked r ≡ ok tt → Blocked s.trace)} _ _
        (Meets-call o _ (λ s h. (λ e. cc, h))
          (λ s r h e. ((λ e'. cc, h), λ good. inl (refl, (r, refl, checked_ok r good)))))
        λ r. Meets-pure _ (λ s h. h)

  Meets-signal_fd :
      Meets
        (λ s. Before s × Blocked s.trace)
        (signal_fd o (watched o))
        (λ r s. Before s × ((fd : ℤ) → r ≡ ok fd → Watching s.trace))
        Stopped
  unfolding signal_fd
  Meets-signal_fd =
      Meets-bind {R = λ r s. Before s × ((fd : ℤ) → checked_fd r ≡ ok fd → Watching s.trace)} _ _
        (Meets-call o _ (λ s h. (λ e. cc, h.0))
          (λ s r h e.
            ((λ e'. cc, h.0), λ fd good. inl (refl, (r, refl, opened_ok r fd good), h.1))))
        λ r. Meets-pure _ (λ s h. h)

  abbrev Installed : Result Signals → Process → Type 0
  Installed (ok signals) = Since
  Installed (err e) = Before

  Meets-install : Meets Before (install o (watched o)) Installed Stopped
  unfolding install
  Meets-install = Meets-bind _ _ Meets-block_signals λ blocked.
      Meets-try blocked _
        (λ done e.
          Meets-mono _ (λ s h. (h.0, h.1 e)) (λ r s h. h) (λ why s h. h)
            (Meets-bind _ _ Meets-signal_fd λ opened.
              Meets-try opened _ (λ fd e'. Meets-pure _ (λ s h. (h.1 fd e', h.0))) (λ e' s h. h.0)))
        (λ e s h. h.0)

module _ (o : Os) (fuel : ℕ) where
  Meets-Installed :
      (r : Result Signals)
      → Meets
          (Installed o r)
          (elim r [
            | ok signals ↦ pure signals
            | err e ↦
                park o fuel (bytes "cannot watch for signals (" ++ (display_error o e ++ bytes ")"))
          ])
          (λ _. Since o)
          (Stopped o)
  Meets-Installed (ok signals) = Meets-pure _ (λ s h. h)
  Meets-Installed (err e) =
      Meets-mono _ (λ s h. (tt, h)) (λ a s h. absurd h.0) (λ why s h. h)
        (Meets-both {Q = λ _ _. ⊥} _ (Gives-park o fuel _)
          (Meets-of_Keeps _ (Lasts-park o (Before-Lasting o) fuel _)))

  Meets-watch_signals : Meets (Before o) (watch_signals o fuel) (λ _. Since o) (Stopped o)
  unfolding watch_signals
  Meets-watch_signals = Meets-bind _ _ (Meets-install o) Meets-Installed

  since : {A : Type 0} {m : M A} → Lasts (Since o) m → Meets (Since o) m (λ _. Since o) (Stopped o)
  since {m = m} k = Meets-mono m (λ s h. h) (λ a s h. h) (λ why s h. h.1) (Meets-of_Keeps m k)

  Lasts-run : Lasts (Before o) (run o fuel)
  unfolding run
  Lasts-run = Keeps-of_Meets _ (
      Meets-bind _ _ (Meets-of_Keeps _ (Lasts-come_up o (Before-Lasting o))) λ failed.
        Meets-bind _ _ Meets-watch_signals λ signals.
          Meets-mono _ (λ s h. h) (λ a s h. h.1) (λ why s h. h)
            (since (
              let on_fork = Since-call o Call.fork in
              Keeps-bind _ _ (Lasts-keep_ctrl_alt_del o watch) λ _.
                Keeps-bind _ _ (Lasts-banner o watch failed) λ _.
                  Keeps-bind _ _ (Lasts-find_shell o watch fuel) λ rescue.
                    Keeps-bind _ _ (Lasts-start o watch on_fork fuel Proc.new rescue) λ table.
                      Keeps-bind _ _ (Keeps-info o (Lasting-Quiet o watch) _)
                        λ _. Lasts-serve o watch fuel signals on_fork table rescue)))
    where
      watch : Lasting o (Since o)
      watch = Since-Lasting o

  Lasts-main : Lasts (Before o) (main o fuel)
  unfolding main getpid
  Lasts-main = Keeps-bind _ _ (Lasts-call_then o (Before-Lasting o) _ _ tt) λ pid.
      Keeps-elim (pid ==ℤ pos 1) _ _ Lasts-run (
        Keeps-bind _ _ ((Before-Lasting o).on_call _ tt) λ _.
          Keeps-bind _ _ ((Before-Lasting o).on_call _ tt)
            λ _. Lasts-stop o (Before-Lasting o) (exited (pos 1)))

  either_way : (r : Outcome Unit) (s : Process) → After (λ _. Before o) (Stopped o) r s → Before o s
  either_way (done a) s h = h
  either_way (stopped why) s h = h

  -- Whatever the kernel answers and for any fuel, before each fork that main calls, the watched
  -- signals were blocked, successfully, and after that a descriptor for the same set was opened,
  -- successfully.
  pub main-WatchesFirst : WatchesFirst o (main o fuel boot).1.trace
  main-WatchesFirst = either_way (main o fuel boot).0 (main o fuel boot).1 (Lasts-main.at boot tt)
