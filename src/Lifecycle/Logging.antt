-- ===== src/Lifecycle/Logging.antt =====
-- Output is allowed in every phase, and so are the wrappers of sys.rs for the terminal.
use zevory_linux.Prelude.{◌≡◌, refl, Option, Bool, ℤ}
use zevory_linux.Os.{Text, Call, Reply, Os, pure, ◌>>=◌, call}
use zevory_linux.Os.Rules.{Keeps-pure, Keeps-bind}
use zevory_linux.Sys.{check, monotonic_secs, new_session, set_ctty}
use zevory_linux.Log.{error, warn, info, to_console, keep_every_message}
use zevory_linux.Log.Quiet.{
  IsOutput, Quiet, Keeps-error, Keeps-warn, Keeps-info, Keeps-to_console, Keeps-monotonic_secs,
  Keeps-keep_every_message,
}
use zevory_linux.Lifecycle.{Phase, turn, Allowed, In, Ended}
use zevory_linux.Lifecycle.Calls.{Stays, Stays-call}

module _ (o : Os) (p : Phase) where
  Stays-output : (c : Call) → IsOutput c → Stays o p (call o c)
  Stays-output (Call.write fd text) _ = Stays-call o p _ (λ r. refl) tt
  Stays-output (Call.open_file path flags) _ = Stays-call o p _ (λ r. refl) tt
  Stays-output (Call.write_file path text) _ = Stays-call o p _ (λ r. refl) tt
  Stays-output (Call.clock_gettime id) _ = Stays-call o p _ (λ r. refl) tt
  Stays-output _ none_such = absurd none_such

  pub In-Quiet : Quiet o (In o p) (Ended o)
  In-Quiet = record {
    on_call = Stays-output;
    on_kmsg = λ s fd h. record { orderly = h.orderly; here = h.here };
  }

  pub Stays-monotonic_secs : Stays o p (monotonic_secs o)
  Stays-monotonic_secs = Keeps-monotonic_secs o In-Quiet

  pub Stays-error : (msg : Text) → Stays o p (error o msg)
  Stays-error = Keeps-error o In-Quiet

  pub Stays-warn : (msg : Text) → Stays o p (warn o msg)
  Stays-warn = Keeps-warn o In-Quiet

  pub Stays-info : (msg : Text) → Stays o p (info o msg)
  Stays-info = Keeps-info o In-Quiet

  pub Stays-to_console : (msg : Text) → Stays o p (to_console o msg)
  Stays-to_console = Keeps-to_console o In-Quiet

  pub Stays-keep_every_message : Stays o p (keep_every_message o)
  Stays-keep_every_message = Keeps-keep_every_message o In-Quiet

  -- one call whose result goes through a function
  pub Stays-call_then :
      {A : Type 0} (c : Call) (f : Reply → A)
      → ((r : Option Reply) → turn o p c r ≡ p)
      → Allowed o p c
      → Stays o p (call o c >>= λ r. pure (f r))
  Stays-call_then c f quiet may = Keeps-bind _ _ (Stays-call o p c quiet may) λ r. Keeps-pure (f r)

  pub Stays-check :
      (c : Call) → ((r : Option Reply) → turn o p c r ≡ p) → Allowed o p c → Stays o p (check o c)
  unfolding check
  Stays-check c = Stays-call_then c _

  pub Stays-new_session : Stays o p (new_session o)
  unfolding new_session
  Stays-new_session = Stays-call_then _ _ (λ r. refl) tt

  pub Stays-set_ctty : (fd : ℤ) (steal : Bool) → Stays o p (set_ctty o fd steal)
  unfolding set_ctty
  Stays-set_ctty fd steal = Stays-check _ (λ r. refl) tt
