-- ===== src/Log/Quiet.antt =====
-- Output and the clock, for any invariant that their calls keep. With the fuel that `write_fd` gives
-- itself it is not cut off, so a stop is always that of a call.
use zevory_linux.Prelude.{
  is_positive→lt, ℕ, zero, suc, ◌+◌, ◌≤◌, true, false, ℤ, ltb, length, is_positive, pos_part, ◌==ℤ◌,
  arith,
}
use zevory_linux.Os.{Text, Call, Reply, Os, Process, Stop, pure, ◌>>=◌, call}
use zevory_linux.Os.Rules.{
  Keeps, Keeps-of_Meets, Meets-of_Keeps, Keeps-pure, Keeps-bind, Keeps-elim, Keeps-result,
  Keeps-try, Meets-elim,
}
use zevory_linux.Sys.{cstr, checked, write_from, write_fd, open_append, monotonic_secs}
use zevory_linux.Log.{
  Level, error_level, warn_level, info_level, load_kmsg, store_kmsg, kmsg, not_open_yet,
  write_to_kmsg, emit, error, warn, info, to_console, keep_every_message,
}

-- The calls of logging and of the clock.
abbrev pub IsOutput : Call → Type 0
IsOutput (Call.write _ _) = Unit
IsOutput (Call.open_file _ _) = Unit
IsOutput (Call.write_file _ _) = Unit
IsOutput (Call.clock_gettime _) = Unit
IsOutput _ = ⊥

-- An invariant that output keeps, with the stops that its calls may make.
pub record Quiet (o : Os) (I : Process → Type 0) (E : Stop → Process → Type 0) : Type 0 where
  pub on_call : (c : Call) → IsOutput c → Keeps I E (call o c)
  pub on_kmsg : (s : Process) (fd : ℤ) → I s → I (record s { kmsg = fd })

module _ (o : Os) {I : Process → Type 0} {E : Stop → Process → Type 0} (q : Quiet o I E) where
  Keeps-call_then :
      {A : Type 0} (c : Call) (f : Reply → A)
      → IsOutput c
      → Keeps I E (call o c >>= λ r. pure (f r))
  Keeps-call_then c f is = Keeps-bind _ _ (q.on_call c is) λ r. Keeps-pure (f r)

  Keeps-write_from :
      (f : ℕ) (fd : ℤ) (text : Text) (n : ℕ)
      → length text ≤ n + f
      → Keeps I E (write_from o (suc f) fd text n)
  unfolding write_from
  Keeps-write_from zero fd text n h = Keeps-of_Meets _ (
      Meets-elim (ltb n (length text)) _ _ (λ more. absurd (ground arith))
        (λ over. Meets-of_Keeps _ (Keeps-pure true)))
  Keeps-write_from (suc f) fd text n h =
      Keeps-elim (ltb n (length text)) _ _
        (Keeps-bind _ _ (q.on_call _ tt) λ r. Keeps-of_Meets _ (
          Meets-elim (is_positive r.rc) _ _
            (λ wrote. Meets-of_Keeps _ (
              Keeps-write_from f fd text (n + pos_part r.rc)
                (omega (arith, is_positive→lt r.rc wrote))))
            (λ refused. Meets-of_Keeps _ (Keeps-pure false))))
        (Keeps-pure true)

  pub Keeps-write_fd : (fd : ℤ) (text : Text) → Keeps I E (write_fd o fd text)
  unfolding write_fd
  Keeps-write_fd fd text = Keeps-write_from (length text) fd text 0 (omega arith)

  pub Keeps-monotonic_secs : Keeps I E (monotonic_secs o)
  unfolding monotonic_secs
  Keeps-monotonic_secs = Keeps-call_then _ _ tt

  Keeps-load_kmsg : Keeps I E load_kmsg
  unfolding load_kmsg
  Keeps-load_kmsg = record { at = λ s h. h }

  Keeps-store_kmsg : (fd : ℤ) → Keeps I E (store_kmsg fd)
  unfolding store_kmsg
  Keeps-store_kmsg fd = record { at = λ s h. q.on_kmsg s fd h }

  Keeps-open_append : (path : Text) → Keeps I E (open_append o path)
  unfolding open_append
  Keeps-open_append path = Keeps-try (cstr path) _ λ c. Keeps-call_then _ _ tt

  Keeps-kmsg : Keeps I E (kmsg o)
  unfolding kmsg
  Keeps-kmsg = Keeps-bind _ _ Keeps-load_kmsg λ known.
      Keeps-elim (known ==ℤ not_open_yet) _ _
        (Keeps-bind _ _ (Keeps-open_append _) λ opened.
          Keeps-result opened _ _ (λ fd. Keeps-bind _ _ (Keeps-store_kmsg fd) λ _. Keeps-pure fd)
            (λ e. Keeps-pure _))
        (Keeps-pure known)

  pub Keeps-write_to_kmsg : (level : Level) (msg : Text) → Keeps I E (write_to_kmsg o level msg)
  unfolding write_to_kmsg
  Keeps-write_to_kmsg level msg =
      Keeps-bind _ _ Keeps-kmsg
        λ fd. Keeps-elim (fd ==ℤ not_open_yet) _ _ (Keeps-pure false) (Keeps-write_fd fd _)

  Keeps-emit : (level : Level) (msg : Text) → Keeps I E (emit o level msg)
  unfolding emit
  Keeps-emit level msg = Keeps-bind _ _ (Keeps-write_to_kmsg level msg) λ written.
      Keeps-elim written _ _ (Keeps-pure tt)
        (Keeps-bind _ _ (Keeps-write_fd _ _) λ _. Keeps-pure tt)

  pub Keeps-error : (msg : Text) → Keeps I E (error o msg)
  unfolding error
  Keeps-error = Keeps-emit error_level

  pub Keeps-warn : (msg : Text) → Keeps I E (warn o msg)
  unfolding warn
  Keeps-warn = Keeps-emit warn_level

  pub Keeps-info : (msg : Text) → Keeps I E (info o msg)
  unfolding info
  Keeps-info = Keeps-emit info_level

  pub Keeps-to_console : (msg : Text) → Keeps I E (to_console o msg)
  unfolding to_console
  Keeps-to_console msg = Keeps-bind _ _ (Keeps-write_fd _ _) λ _. Keeps-pure tt

  pub Keeps-keep_every_message : Keeps I E (keep_every_message o)
  unfolding keep_every_message
  Keeps-keep_every_message =
      Keeps-bind _ _ (q.on_call _ tt)
        λ r. Keeps-result (checked r) _ _ (λ _. Keeps-pure tt) (λ e. Keeps-warn _)
