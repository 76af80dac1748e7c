-- ===== src/Lifecycle/Whole.antt =====
-- The whole life of pid 1, from the first call to the last.
use zevory_linux.Prelude.{
  ℕ, ◌≡◌, refl, ap, inr, some, Bool, true, false, pos, ◌==ℤ◌, ==ℤ_iff, [], ◌∷◌,
}
use zevory_linux.Os.{Call, Reply, Os, Process, Stop, Outcome, done, stopped, M, ◌>>=◌, call, event}
use zevory_linux.Os.Rules.{Meets-given, After, Meets, Meets-bind, Meets-of_Keeps}
use zevory_linux.Sys.{getpid}
use zevory_linux.Log.{not_open_yet}
use zevory_linux.Proc.{Table}
use zevory_linux.Proc
use zevory_linux.Shell.{Rescue}
use zevory_linux.Shell.Chances.{IsValid}
use zevory_linux.Signal.{Signals}
use zevory_linux.Main.{main, run, serve}
use zevory_linux.Lifecycle.{up, flushed, phase, Orderly, EndsWell, In, Ended}
use zevory_linux.Lifecycle.Logging.{Stays-info}
use zevory_linux.Lifecycle.Setup.{
  Ends-park, Stays-banner, Stays-come_up, Stays-watch_signals, Stays-keep_ctrl_alt_del,
  Meets-find_shell,
}
use zevory_linux.Lifecycle.Shutdown.{execute-Orderly}
use zevory_linux.Lifecycle.Supervision.{Stays-start, supervise-Orderly}

-- A process that has called nothing.
abbrev pub boot : Process
boot = record { trace = []; kmsg = not_open_yet }

-- A result that nothing has.
abbrev NoResult : Unit {0} → Process → Type 0
NoResult _ _ = ⊥

module _ (o : Os) (fuel : ℕ) where
  Ends-serve :
      (signals : Signals) (t : Table) (r : Rescue)
      → IsValid r
      → Meets (In o up) (serve o fuel signals t r) NoResult (Ended o)
  unfolding serve
  Ends-serve signals t r v = Meets-bind _ _ (supervise-Orderly o fuel t signals r v) λ asked.
      Meets-bind _ _ (execute-Orderly o asked.0 fuel signals asked.1)
        λ refused. Ends-park o (flushed asked.0) fuel _ (inr refl)

  Ends-run : Meets (In o up) (run o fuel) NoResult (Ended o)
  unfolding run
  Ends-run = Meets-bind _ _ (Meets-of_Keeps _ (Stays-come_up o)) λ failed.
      Meets-bind _ _ (Meets-of_Keeps _ (Stays-watch_signals o fuel)) λ signals.
        Meets-bind _ _ (Meets-of_Keeps _ (Stays-keep_ctrl_alt_del o)) λ _.
          Meets-bind _ _ (Meets-of_Keeps _ (Stays-banner o up failed)) λ _.
            Meets-bind _ _ (Meets-find_shell o fuel) λ r. Meets-given (IsValid r) _ λ v.
              Meets-bind _ _ (Meets-of_Keeps _ (Stays-start o fuel Proc.new r v)) λ t.
                Meets-bind _ _ (Meets-of_Keeps _ (Stays-info o up _)) λ _. Ends-serve signals t r v

  After-NoResult :
      (r : Outcome Unit) (s : Process)
      → After NoResult (Ended o) r s
      → (why : Stop) × (r ≡ stopped why) × Ended o why s
  After-NoResult (done _) s h = absurd h
  After-NoResult (stopped why) s h = (why, refl, h)

then_branch :
    {A : Type 0} (b : Bool) (m n : M A)
    → b ≡ true
    → ◌≡◌ {A = M A} (elim b [ true ↦ m | false ↦ n ]) m
then_branch true m n e = refl
then_branch false m n e = cc

module _ (o : Os) (fuel : ℕ) (r : Reply) (answers : o.answer [] Call.getpid ≡ some r)
    (first : r.rc ≡ pos 1) where
  abbrev after_getpid : Process
  after_getpid = record boot { trace = event Call.getpid (some r) ∷ [] }

  main_runs : main o fuel boot ≡ run o fuel after_getpid
  unfolding main getpid call ◌>>=◌
  main_runs = rw answers (
      ap (λ (m : M Unit). m after_getpid)
        (then_branch (r.rc ==ℤ pos 1) _ _ ((==ℤ_iff r.rc (pos 1)).1 first)))

  ended : (why : Stop) × ((main o fuel boot).0 ≡ stopped why) × Ended o why (main o fuel boot).1
  ended = rw main_runs (
      After-NoResult o fuel _ _
        ((Ends-run o fuel).at after_getpid (record { orderly = (tt, tt); here = refl })))

  -- Whatever the kernel answers and for any fuel, where getpid answers 1, pid 1 makes every call
  -- in a phase of its life in which it is allowed: signals to others, sync and the final reboot
  -- only on the way down that a signal asked for, in this order, and execv only on the child's
  -- side of a fork.
  pub main-Orderly : Orderly o (main o fuel boot).1.trace
  main-Orderly = ended.2.orderly

  -- Whatever the kernel answers and for any fuel, where getpid answers 1, main gives no result as
  -- pid 1: it stops by a call that does not return or by parking, or its loops outlast the fuel;
  -- it does not panic, and only a child that could not exec exits, with 127.
  pub main_never_returns :
      (why : Stop) × ((main o fuel boot).0 ≡ stopped why)
      × EndsWell o why (phase o (main o fuel boot).1.trace)
  main_never_returns = (ended.0, ended.1, ended.2.well)
