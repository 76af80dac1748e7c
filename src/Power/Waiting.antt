-- ===== src/Power/Waiting.antt =====
-- Reaping and waiting keep whatever their calls keep.
use zevory_linux.Prelude.{ℕ, zero, suc, true, false, Option, none, some, ℤ, negsuc, leb}
use zevory_linux.Os.{Call, Os, Process, Stop, out_of_fuel, M, pure, call}
use zevory_linux.Os.Rules.{
  Keeps, Keeps-of_Meets, Meets-stop, Meets-mono, Keeps-pure, Keeps-bind, Keeps-try, Keeps-elim,
}
use zevory_linux.Sys.{
  reaped_child, still_running, no_children_left, reap_one, poll_readable, read_signal,
}
use zevory_linux.Sys.Io.{Result, ok, err}
use zevory_linux.Log.Quiet.{Quiet, Keeps-info, Keeps-monotonic_secs}
use zevory_linux.Proc.{Table}
use zevory_linux.Signal.{
  Signals, Request, child_changed, reload, shutdown, unknown, classify, wait, reap_from, reap_all,
}
use zevory_linux.Signal.Reaping.{Meets-bury}
use zevory_linux.Power.{note_arrival, wait_rounds, wait_for_silence}

-- Reaping keeps what output and `waitpid` keep.
module _ (o : Os) {I : Process → Type 0} {E : Stop → Process → Type 0} (q : Quiet o I E)
    (on_waitpid : Keeps I E (call o (Call.waitpid (negsuc 0) o.wnohang)))
    (cut_off : (s : Process) → I s → E out_of_fuel s) where
  Keeps-reap_from :
      (fuel : ℕ) (t : Table) (shortest : Option ℕ) → Keeps I E (reap_from o fuel t shortest)
  unfolding reap_from reap_one
  Keeps-reap_from zero t shortest = Keeps-of_Meets _ (Meets-stop out_of_fuel cut_off)
  Keeps-reap_from (suc fuel) t shortest =
      Keeps-bind _ _ (Keeps-bind _ _ on_waitpid λ r. Keeps-pure _) (elim [
        | still_running ↦ Keeps-pure _
        | no_children_left ↦ Keeps-pure _
        | reaped_child pid status ↦
            Keeps-bind _ _
              (Keeps-of_Meets _ (
                Meets-mono _ (λ s h. h) (λ b s h. h.0) (λ why s h. h)
                  (Meets-bury o q t shortest pid status)))
              λ b. Keeps-reap_from fuel b.0 b.1
      ])

  pub Keeps-reap_all : (fuel : ℕ) (t : Table) → Keeps I E (reap_all o fuel t)
  unfolding reap_all
  Keeps-reap_all fuel t = Keeps-bind _ _ (Keeps-reap_from fuel t none) λ r. Keeps-pure _

-- Noting what arrived on the way down is output.
module _ (o : Os) {I : Process → Type 0} {E : Stop → Process → Type 0} (q : Quiet o I E) where
  by_request :
      (r : Request) (n : M Unit)
      → Keeps I E n
      → Keeps I E (elim r [ child_changed ↦ pure tt | _ ↦ n ])
  by_request child_changed n k = Keeps-pure tt
  by_request reload n k = k
  by_request (shutdown a) n k = k
  by_request (unknown u) n k = k

  pub Keeps-note_arrival : (r : Result (Option ℤ)) → Keeps I E (note_arrival o r)
  unfolding note_arrival
  Keeps-note_arrival (ok (some s)) = by_request (classify o s) _ (Keeps-info o q _)
  Keeps-note_arrival (ok none) = Keeps-pure tt
  Keeps-note_arrival (err e) = Keeps-pure tt

-- What the calls of waiting keep, beside output
pub record Patient (o : Os) (I : Process → Type 0) (E : Stop → Process → Type 0) : Type 0 where
  pub quiet : Quiet o I E
  pub on_waitpid : Keeps I E (call o (Call.waitpid (negsuc 0) o.wnohang))
  pub on_poll : (fd events millis : ℤ) → Keeps I E (call o (Call.poll fd events millis))
  pub on_read : (fd : ℤ) (n : ℕ) → Keeps I E (call o (Call.read fd n))
  pub cut_off : (s : Process) → I s → E out_of_fuel s

module _ (o : Os) {I : Process → Type 0} {E : Stop → Process → Type 0} (p : Patient o I E)
    (fuel : ℕ) (signals : Signals) where
  pub Keeps-wait : (millis : ℤ) → Keeps I E (wait o signals millis)
  unfolding wait poll_readable read_signal
  Keeps-wait millis =
      Keeps-bind _ _ (Keeps-bind _ _ (p.on_poll _ _ _) λ r. Keeps-pure _) λ readable.
        Keeps-try readable _ (elim [
          | true ↦
              Keeps-bind _ _ (Keeps-bind _ _ (p.on_read _ _) λ r. Keeps-pure _)
                λ signal. Keeps-try signal _ λ s. Keeps-pure _
          | false ↦ Keeps-pure _
        ])

  Keeps-wait_rounds :
      (rounds : ℕ) (t : Table) (deadline : ℕ)
      → Keeps I E (wait_rounds o fuel signals rounds t deadline)
  unfolding wait_rounds
  Keeps-wait_rounds zero t deadline = Keeps-of_Meets _ (Meets-stop out_of_fuel p.cut_off)
  Keeps-wait_rounds (suc rounds) t deadline =
      Keeps-bind _ _ (Keeps-reap_all o p.quiet p.on_waitpid p.cut_off fuel t) λ reaped.
        Keeps-elim reaped.0.children_left _ _
          (Keeps-bind _ _ (Keeps-monotonic_secs o p.quiet) λ now.
            Keeps-elim (leb deadline now) _ _ (Keeps-pure _) (
              Keeps-bind _ _ (Keeps-wait _) λ arrived.
                Keeps-bind _ _ (Keeps-note_arrival o p.quiet arrived)
                  λ _. Keeps-wait_rounds rounds reaped.1 deadline))
          (Keeps-pure _)

  pub Keeps-wait_for_silence :
      (t : Table) (secs : ℕ) → Keeps I E (wait_for_silence o fuel signals t secs)
  unfolding wait_for_silence
  Keeps-wait_for_silence t secs =
      Keeps-bind _ _ (Keeps-monotonic_secs o p.quiet) λ now. Keeps-wait_rounds fuel t _
