-- ===== src/Lifecycle/Lasting.antt =====
-- What calls cannot undo: an invariant that every call but `fork` keeps is kept by coming up and by
-- parking, and by the rest of a life where `fork` keeps it too.
pub mod ComingUp
pub mod Serving
pub mod GoingDown
pub mod NoStart
use zevory_linux.Prelude.{ℕ, zero, suc, List, [], ◌∷◌, ℤ, Bool}
use zevory_linux.Os.{
  Text, Call, Reply, Os, Process, Stop, parked, out_of_fuel, M, pure, stop, ◌>>=◌, call,
}
use zevory_linux.Os.Rules.{
  Keeps, Keeps-of_Meets, Meets-stop, Keeps-pure, Keeps-bind, Keeps-elim, Keeps-result,
}
use zevory_linux.Sys.{check, new_session, set_ctty, enable_ctrl_alt_del, pause}
use zevory_linux.Log.Quiet.{IsOutput, Quiet, Keeps-error, Keeps-to_console}
use zevory_linux.Main.Setup.{panic, pause_forever, park}
use zevory_linux.Power.Waiting.{Patient}

abbrev pub IsNoFork : Call → Type 0
IsNoFork Call.fork = ⊥
IsNoFork _ = Unit

-- However a run stops, the invariant holds.
abbrev pub Lasts : {A : Type 0} → (Process → Type 0) → M A → Type 0
Lasts I m = Keeps I (λ why. I) m

pub record Lasting (o : Os) (I : Process → Type 0) : Type 0 where
  pub on_call : (c : Call) → IsNoFork c → Lasts I (call o c)
  pub on_kmsg : (s : Process) (fd : ℤ) → I s → I (record s { kmsg = fd })

module _ (o : Os) {I : Process → Type 0} (l : Lasting o I) where
  output-IsNoFork : (c : Call) → IsOutput c → IsNoFork c
  output-IsNoFork Call.fork none_such = none_such
  output-IsNoFork _ is = tt

  pub Lasting-Quiet : Quiet o I (λ why. I)
  Lasting-Quiet = record {
    on_call = λ c is. l.on_call c (output-IsNoFork c is);
    on_kmsg = l.on_kmsg;
  }

  pub Lasting-Patient : Patient o I (λ why. I)
  Lasting-Patient = record {
    quiet = Lasting-Quiet;
    on_waitpid = l.on_call _ tt;
    on_poll = λ fd events millis. l.on_call _ tt;
    on_read = λ fd n. l.on_call _ tt;
    cut_off = λ s h. h;
  }

  pub Lasts-stop : {A : Type 0} (why : Stop) → Lasts I (stop {A = A} why)
  Lasts-stop why = Keeps-of_Meets _ (Meets-stop why (λ s h. h))

  pub Lasts-call_then :
      {A : Type 0} (c : Call) (f : Reply → A) → IsNoFork c → Lasts I (call o c >>= λ r. pure (f r))
  Lasts-call_then c f other = Keeps-bind _ _ (l.on_call c other) λ r. Keeps-pure (f r)

  pub Lasts-check : (c : Call) → IsNoFork c → Lasts I (check o c)
  unfolding check
  Lasts-check c = Lasts-call_then c _

  Lasts-pause_forever : {A : Type 0} (rounds : ℕ) → Lasts I (pause_forever o {A = A} rounds)
  unfolding pause_forever pause
  Lasts-pause_forever zero = Lasts-stop parked
  Lasts-pause_forever (suc rounds) =
      Keeps-bind _ _ (Lasts-call_then _ _ tt) λ _. Lasts-pause_forever rounds

  pub Lasts-park : {A : Type 0} (fuel : ℕ) (why : Text) → Lasts I (park o fuel {A = A} why)
  unfolding park enable_ctrl_alt_del
  Lasts-park fuel why = Keeps-bind _ _ (Lasts-check _ tt) λ cad.
      Keeps-bind _ _ (Keeps-error o Lasting-Quiet _)
        λ _. Keeps-bind _ _ (Keeps-to_console o Lasting-Quiet _) λ _. Lasts-pause_forever fuel

  pub Lasts-new_session : Lasts I (new_session o)
  unfolding new_session
  Lasts-new_session = Lasts-call_then _ _ tt

  pub Lasts-set_ctty : (fd : ℤ) (steal : Bool) → Lasts I (set_ctty o fd steal)
  unfolding set_ctty
  Lasts-set_ctty fd steal = Lasts-check _ tt
