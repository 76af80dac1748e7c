-- ===== src/Lifecycle/Lasting/Serving.antt =====
-- Starting shells, supervision and the way down keep what every call keeps.
use zevory_linux.Prelude.{ℕ, zero, suc, List, Option, none, some, ℤ, ◌==◌, leb}
use zevory_linux.Os.{Text, Call, Os, Process, aborted, out_of_fuel, M, pure, call}
use zevory_linux.Os.Rules.{Keeps-when, Keeps-pure, Keeps-bind, Keeps-elim, Keeps-result}
use zevory_linux.Sys.{Fork, parent, child, cstr, cstrs, exec, exit_child, fork, unblock_all_signals}
use zevory_linux.Sys.Io.{Result, ok, err, try, is_interrupted}
use zevory_linux.Log.Quiet.{Keeps-error, Keeps-info, Keeps-monotonic_secs}
use zevory_linux.Proc.{Table, Spec, running_count, become, spawn_process, spawn, track}
use zevory_linux.Shell.{Rescue, Verdict, keep_trying, moved_on, out_of_options}
use zevory_linux.Signal.{Signals, Request, child_changed, reload, shutdown, unknown, classify}
use zevory_linux.Power.Actions.{Action}
use zevory_linux.Power.Waiting.{Keeps-reap_all, Keeps-wait}
use zevory_linux.Main.Setup.{panic, or_panic}
use zevory_linux.Main.Supervise.{
  Watch, again, going_down, start, give_up_or_fall_back, respawn, after_reaping, obey, heed, round,
  supervise_rounds, supervise,
}
use zevory_linux.Lifecycle.Lasting.{
  Lasts, Lasting, Lasting-Quiet, Lasting-Patient, Lasts-stop, Lasts-call_then, Lasts-check,
  Lasts-park, Lasts-new_session, Lasts-set_ctty,
}

module _ (o : Os) {I : Process → Type 0} (l : Lasting o I) where
  Lasts-or_panic : {A : Type 0} (x : Option A) → Lasts I (or_panic o x)
  unfolding or_panic panic
  Lasts-or_panic none =
      Keeps-bind _ _ (Keeps-error o (Lasting-Quiet o l) _) λ _. Lasts-stop o l aborted
  Lasts-or_panic (some a) = Keeps-pure a

module _ (o : Os) {I : Process → Type 0} (l : Lasting o I) (fuel : ℕ) where
  by_verdict :
      {A : Type 0} (v : Verdict) (m n : M A) (f : Spec → M A)
      → Lasts I m
      → ((s : Spec) → Lasts I (f s))
      → Lasts I n
      → Lasts I (elim v [ keep_trying ↦ m | moved_on s ↦ f s | out_of_options ↦ n ])
  by_verdict keep_trying m n f km kf kn = km
  by_verdict (moved_on s) m n f km kf kn = kf s
  by_verdict out_of_options m n f km kf kn = kn

  Lasts-give_up : (r : Rescue) → Lasts I (give_up_or_fall_back o fuel r)
  unfolding give_up_or_fall_back
  Lasts-give_up r = Keeps-bind _ _ (Lasts-or_panic o l _) λ dying.
      Keeps-bind _ _ (Lasts-or_panic o l _) λ failed.
        by_verdict failed.0 _ _ _ (Keeps-pure _)
          (λ next. Keeps-bind _ _ (Keeps-error o (Lasting-Quiet o l) _) λ _. Keeps-pure _)
          (Lasts-park o l fuel _)

  pub Lasts-after_reaping :
      (w : Watch) (shortest : Option ℕ) → Lasts I (after_reaping o fuel w shortest)
  unfolding after_reaping
  Lasts-after_reaping w none = Keeps-pure w
  Lasts-after_reaping w (some ran_for) = Keeps-elim (leb 1 ran_for) _ _ (Keeps-pure _) (
      Keeps-bind _ _ (Keeps-monotonic_secs o (Lasting-Quiet o l))
        λ now. Keeps-bind _ _ (Lasts-give_up w.rescue) λ r. Keeps-pure _)

module _ (o : Os) {I : Process → Type 0} (l : Lasting o I)
    (on_fork : Lasts I (call o Call.fork)) where
  Lasts-exec : (path : Text) (args : List Text) → Lasts I (exec o path args)
  unfolding exec
  Lasts-exec path args =
      Keeps-result (cstr path) _ _
        (λ cpath.
          Keeps-result (cstrs args) _ _ (λ argv. Lasts-call_then o l _ _ tt) (λ e. Keeps-pure e))
        (λ e. Keeps-pure _)

  Lasts-become : (spec : Spec) → Lasts I (become o spec)
  unfolding become unblock_all_signals exit_child
  Lasts-become spec = Keeps-bind _ _ (Lasts-check o l _ tt) λ _.
      Keeps-bind _ _
        (Keeps-when _ _ (
          Keeps-bind _ _ (Lasts-new_session o l)
            λ _. Keeps-bind _ _ (Lasts-set_ctty o l _ _) λ _. Keeps-pure tt))
        λ _.
          Keeps-bind _ _ (Lasts-exec _ _)
            λ failure. Keeps-bind _ _ (Keeps-error o (Lasting-Quiet o l) _) λ _. Lasts-stop o l _

  either_side :
      (spec : Spec) (r : Result Fork)
      → Lasts I
          (try r (λ forked. elim forked [ parent pid ↦ pure (ok pid) | child ↦ become o spec ]))
  either_side spec (ok (parent pid)) = Keeps-pure _
  either_side spec (ok child) = Lasts-become spec
  either_side spec (err e) = Keeps-pure _

  Lasts-spawn : (t : Table) (spec : Spec) → Lasts I (spawn o t spec)
  unfolding spawn spawn_process fork track
  Lasts-spawn t spec =
      Keeps-bind _ _ (Keeps-bind _ _ (Keeps-bind _ _ on_fork λ r. Keeps-pure _) (either_side spec))
        λ started.
          Keeps-result started _ _
            (λ pid.
              Keeps-bind _ _
                (Keeps-bind _ _ (Keeps-monotonic_secs o (Lasting-Quiet o l)) λ now. Keeps-pure _)
                λ t'. Keeps-pure _)
            (λ e. Keeps-pure _)

  pub Lasts-start : (fuel : ℕ) (t : Table) (r : Rescue) → Lasts I (start o fuel t r)
  unfolding start
  Lasts-start fuel t r = Keeps-bind _ _ (Lasts-or_panic o l _) λ spec.
      Keeps-bind _ _ (Lasts-spawn t spec)
        λ started. Keeps-result started.0 _ _ (λ pid. Keeps-pure _) (λ e. Lasts-park o l fuel _)

module _ (o : Os) {I : Process → Type 0} (l : Lasting o I) (on_fork : Lasts I (call o Call.fork))
    (fuel : ℕ) where
  Lasts-respawn : (w : Watch) → Lasts I (respawn o fuel w)
  unfolding respawn
  Lasts-respawn w =
      Keeps-elim (running_count w.table == 0) _ _
        (Keeps-bind _ _ (Keeps-monotonic_secs o (Lasting-Quiet o l)) λ now.
          Keeps-elim (leb w.respawn_at now) _ _
            (Keeps-bind _ _ (Lasts-start o l on_fork fuel w.table w.rescue) λ t. Keeps-pure _)
            (Keeps-pure w))
        (Keeps-pure w)

  by_request :
      {A : Type 0} (q : Request) (m n : M A) (f : Action → M A) (g : ℤ → M A)
      → Lasts I m
      → Lasts I n
      → ((a : Action) → Lasts I (f a))
      → ((s : ℤ) → Lasts I (g s))
      → Lasts I (elim q [ child_changed ↦ m | reload ↦ n | shutdown a ↦ f a | unknown s ↦ g s ])
  by_request child_changed m n f g km kn kf kg = km
  by_request reload m n f g km kn kf kg = kn
  by_request (shutdown a) m n f g km kn kf kg = kf a
  by_request (unknown s) m n f g km kn kf kg = kg s

  Lasts-obey : (w : Watch) (signal : ℤ) → Lasts I (obey o fuel w signal)
  unfolding obey
  Lasts-obey w signal =
      by_request (classify o signal) _ _ _ _
        (Keeps-bind _ _
          (Keeps-reap_all o (Lasting-Quiet o l) (l.on_call _ tt) (λ s h. h) fuel w.table)
          λ reaped. Keeps-bind _ _ (Lasts-after_reaping o l fuel _ _) λ w'. Keeps-pure _)
        (Keeps-bind _ _ (Keeps-info o (Lasting-Quiet o l) _) λ _. Keeps-pure _) (λ a. Keeps-pure _)
        (λ s. Keeps-bind _ _ (Keeps-info o (Lasting-Quiet o l) _) λ _. Keeps-pure _)

  Lasts-heed : (w : Watch) (arrived : Result (Option ℤ)) → Lasts I (heed o fuel w arrived)
  unfolding heed
  Lasts-heed w (ok (some signal)) = Lasts-obey w signal
  Lasts-heed w (ok none) = Keeps-pure _
  Lasts-heed w (err e) = Keeps-elim (is_interrupted o e) _ _ (Keeps-pure _) (Lasts-park o l fuel _)

  Lasts-rounds :
      (rounds : ℕ) (signals : Signals) (w : Watch)
      → Lasts I (supervise_rounds o fuel rounds signals w)
  unfolding supervise_rounds round
  Lasts-rounds zero signals w = Lasts-stop o l out_of_fuel
  Lasts-rounds (suc rounds) signals w =
      Keeps-bind _ _
        (Keeps-bind _ _ (Lasts-respawn w)
          λ w'. Keeps-bind _ _ (Keeps-wait o (Lasting-Patient o l) fuel signals _) (Lasts-heed w'))
        (elim [ again w' ↦ Lasts-rounds rounds signals w' | going_down a t ↦ Keeps-pure _ ])

  pub Lasts-supervise :
      (t : Table) (signals : Signals) (r : Rescue) → Lasts I (supervise o fuel t signals r)
  unfolding supervise
  Lasts-supervise t signals r = Lasts-rounds fuel signals _
