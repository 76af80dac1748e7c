-- ===== src/Lifecycle/Children.antt =====
-- Starting and reaping children: only a child execs, and pid 1 comes back from `spawn` still `up`.
use zevory_linux.Prelude.{
  Bool, ℕ, zero, suc, ◌≡◌, refl, Option, none, ℤ, pos, negsuc, ◌==ℤ◌, List, if◌then◌else◌, arith,
}
use zevory_linux.Os.{Text, Os, Process, M, exited, pure, stop}
use zevory_linux.Os.Rules.{
  Keeps-when, Meets, Keeps-pure, Keeps-bind, Keeps-result, Keeps-option, Meets-pure, Meets-bind,
  Meets-of_Keeps, Keeps-of_Meets,
}
use zevory_linux.Sys.{
  Fork, parent, Reaped, reaped_child, still_running, no_children_left, cstr, cstrs, exec,
  last_os_error, exit_child, fork, reap_one, unblock_all_signals,
}
use zevory_linux.Sys.Io.{IoError, Result, ok, err, try}
use zevory_linux.Proc.{
  Table, Spec, State, running, exited, killed, Departed, become, spawn_process, spawn, track,
  record_exit, finish, state_from,
}
use zevory_linux.Signal.{log_departure, bury, reap_from, reap_all}
use zevory_linux.Lifecycle.{Phase, up, child, UpOrDown, In, Ended}
use zevory_linux.Lifecycle.Calls.{Moves-call_then, Stays, Stays-out_of_fuel}
use zevory_linux.Lifecycle.Logging.{
  Stays-call_then, Stays-check, Stays-new_session, Stays-set_ctty, Stays-error, Stays-warn,
  Stays-info, Stays-monotonic_secs,
}

module _ (o : Os) where
  Stays-exec : (path : Text) (args : List Text) → Stays o child (exec o path args)
  unfolding exec
  Stays-exec path args =
      Keeps-result (cstr path) _ _
        (λ cpath.
          Keeps-result (cstrs args) _ _ (λ argv. Stays-call_then o child _ _ (λ r. refl) tt)
            (λ e. Keeps-pure e))
        (λ e. Keeps-pure _)

  -- The child gives no result: it execs, or exits with 127.
  Ends-become :
      (spec : Spec) {Q : Result ℤ → Process → Type 0}
      → Meets (In o child) (become o spec) Q (Ended o)
  unfolding become unblock_all_signals exit_child stop
  Ends-become spec = Meets-bind _ _ (Meets-of_Keeps _ (Stays-check o child _ (λ r. refl) tt)) λ _.
      Meets-bind _ _
        (Meets-of_Keeps _ (
          Keeps-when _ _ (
            Keeps-bind _ _ (Stays-new_session o child)
              λ _. Keeps-bind _ _ (Stays-set_ctty o child _ _) λ _. Keeps-pure tt)))
        λ _. Meets-bind _ _ (Meets-of_Keeps _ (Stays-exec _ _)) λ failure.
          Meets-bind _ _ (Meets-of_Keeps _ (Stays-error o child _))
            λ _. record { at = λ s h. record { orderly = h.orderly; well = (refl, h.here) } }

  -- which side of the `fork` a result belongs to
  abbrev side : Result Fork → Phase
  side (ok (parent pid)) = up
  side (ok Fork.child) = child
  side (err e) = up

  fork_side :
      (rc : ℤ) (e : IoError)
      → (if rc ==ℤ pos 0 then child else up)
        ≡ side (
            if rc ==ℤ negsuc 0
            then err e
            else if rc ==ℤ pos 0
            then ok Fork.child
            else ok (parent rc))
  unfolding ◌==ℤ◌
  fork_side (pos n) e = ground arith
  fork_side (negsuc n) e = ground arith

  Meets-fork : Meets (In o up) (fork o) (λ r. In o (side r)) (Ended o)
  unfolding fork
  Meets-fork = Moves-call_then o up _ _ side tt λ r. fork_side r.rc (last_os_error r)

  Stays-track :
      (t : Table) (name : Text) (pid : ℤ) (owns : Bool) → Stays o up (track o t name pid owns)
  unfolding track
  Stays-track t name pid owns = Keeps-bind _ _ (Stays-monotonic_secs o up) λ now. Keeps-pure _

  Meets-side :
      (spec : Spec) (r : Result Fork)
      → Meets
          (In o (side r))
          (try r
            (λ forked. elim forked [ parent pid ↦ pure (ok pid) | Fork.child ↦ become o spec ]))
          (λ _. In o up)
          (Ended o)
  Meets-side spec (ok (parent pid)) = Meets-pure (ok pid) (λ s h. h)
  Meets-side spec (ok Fork.child) = Ends-become spec
  Meets-side spec (err e) = Meets-pure (err e) (λ s h. h)

  -- A result comes back on the parent's side only.
  pub Stays-spawn : (t : Table) (spec : Spec) → Stays o up (spawn o t spec)
  unfolding spawn spawn_process
  Stays-spawn t spec =
      Keeps-bind _ _ (Keeps-of_Meets _ (Meets-bind _ _ Meets-fork (Meets-side spec))) λ started.
        Keeps-result started _ _
          (λ pid.
            Keeps-bind _ _ (Stays-track t spec.name pid spec.wants_own_session) λ t'. Keeps-pure _)
          (λ e. Keeps-pure _)

-- Reaping, on the way up or down
module _ (o : Os) (p : Phase) where
  Stays-state :
      {A : Type 0} (st : State) (f g : ℤ → M A) (m : M A)
      → ((c : ℤ) → Stays o p (f c))
      → ((c : ℤ) → Stays o p (g c))
      → Stays o p m
      → Stays o p (elim st [ exited c ↦ f c | killed c ↦ g c | running ↦ m ])
  Stays-state (exited c) f g m kf kg km = kf c
  Stays-state (killed c) f g m kf kg km = kg c
  Stays-state running f g m kf kg km = km

  Stays-reaped :
      {A : Type 0} (r : Reaped) (f : ℤ → ℤ → M A) (m n : M A)
      → ((pid status : ℤ) → Stays o p (f pid status))
      → Stays o p m
      → Stays o p n
      → Stays o p
          (elim r [ still_running ↦ m | no_children_left ↦ n | reaped_child pid st ↦ f pid st ])
  Stays-reaped (reaped_child pid status) f m n kf km kn = kf pid status
  Stays-reaped still_running f m n kf km kn = km
  Stays-reaped no_children_left f m n kf km kn = kn

  Stays-log_departure : (gone : Departed) → Stays o p (log_departure o gone)
  unfolding log_departure
  Stays-log_departure gone =
      Stays-state gone.state _ _ _ (λ c. Stays-info o p _) (λ c. Stays-warn o p _) (Keeps-pure tt)

  Stays-record_exit : (t : Table) (pid status : ℤ) → Stays o p (record_exit o t pid status)
  unfolding record_exit
  Stays-record_exit t pid status =
      Keeps-option (finish pid (state_from o status) t) _ _
        (λ found. Keeps-bind _ _ (Stays-monotonic_secs o p) λ now. Keeps-pure _) (Keeps-pure _)

  Stays-bury :
      (t : Table) (shortest : Option ℕ) (pid status : ℤ) → Stays o p (bury o t shortest pid status)
  unfolding bury
  Stays-bury t shortest pid status = Keeps-bind _ _ (Stays-record_exit t pid status) λ found.
      Keeps-option found.0 _ _ (λ gone. Keeps-bind _ _ (Stays-log_departure gone) λ _. Keeps-pure _)
        (Keeps-bind _ _ (Stays-info o p _) λ _. Keeps-pure _)

  Stays-reap_from :
      (fuel : ℕ) (t : Table) (shortest : Option ℕ)
      → UpOrDown o p
      → Stays o p (reap_from o fuel t shortest)
  unfolding reap_from reap_one
  Stays-reap_from zero t shortest may = Stays-out_of_fuel o p
  Stays-reap_from (suc fuel) t shortest may =
      Keeps-bind _ _ (Stays-call_then o p _ _ (λ r. refl) may) λ reaped.
        Stays-reaped reaped _ _ _
          (λ pid status.
            Keeps-bind _ _ (Stays-bury t shortest pid status) λ b. Stays-reap_from fuel b.0 b.1 may)
          (Keeps-pure _) (Keeps-pure _)

  pub Stays-reap_all : (fuel : ℕ) (t : Table) → UpOrDown o p → Stays o p (reap_all o fuel t)
  unfolding reap_all
  Stays-reap_all fuel t may = Keeps-bind _ _ (Stays-reap_from fuel t none may) λ found. Keeps-pure _
