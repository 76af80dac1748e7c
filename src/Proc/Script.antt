-- ===== src/Proc/Script.antt =====
-- What a forked child does before it is another program, as a list of calls.
use zevory_linux.Prelude.{
  ◌≡◌, refl, ap, sym, ◌∙◌, List, [], ◌∷◌, ◌++◌, append-nil, Bool-cases, Bool, true, false, ◌||◌, ℤ,
  pos, ◌⊎◌, inl, inr, if◌then◌else◌,
}
use zevory_linux.Os.{
  Text, filled, Call, Reply, Event, Os, Process, Stop, exited, never_returned, pure, stop, ◌>>=◌,
  when, call,
}
use zevory_linux.Os.Rules.{
  Meets, Keeps-of_Meets, Meets-of_Keeps, Meets-mono, Meets-call, Meets-pure, Meets-bind,
}
use zevory_linux.Sys.{
  last_os_error, cstr, cstrs, exec, exit_child, unblock_all_signals, new_session, set_ctty, check,
}
use zevory_linux.Sys.Io.{IoError, Result, ok, err, has_nul}
use zevory_linux.Log.Quiet.{IsOutput, Quiet, Keeps-error}
use zevory_linux.Proc.{Spec, become}

-- A call that is neither output nor a reading of the clock
abbrev pub doing : Call → List Call
doing (Call.write _ _) = []
doing (Call.open_file _ _) = []
doing (Call.write_file _ _) = []
doing (Call.clock_gettime _) = []
doing c = c ∷ []

-- These calls of a trace, the last one first
abbrev pub doings : List Event → List Call
doings [] = []
doings (e ∷ t) = doing e.made ++ doings t

abbrev pub Did : List Call → Process → Type 0
Did l s = doings s.trace ≡ l

-- Calls made one after the other onto those made before
abbrev pub onto : List Call → List Call → List Call
onto [] l = l
onto (c ∷ cs) l = onto cs (c ∷ l)

onto-append : (cs ds l : List Call) → onto (cs ++ ds) l ≡ onto ds (onto cs l)
onto-append [] ds l = refl
onto-append (c ∷ cs) ds l = onto-append cs ds (c ∷ l)

abbrev pub any_nul : List Text → Bool
any_nul [] = false
any_nul (a ∷ args) = has_nul a || any_nul args

-- A text with a NUL is for no kernel.
abbrev pub launch : Text → List Text → List Call
launch path args = if has_nul path || any_nul args then [] else Call.execv path args ∷ []

module _ (o : Os) where
  abbrev pub session : Bool → List Call
  session true = Call.setsid ∷ Call.ioctl o.stdin_fileno o.tiocsctty (pos 1) ∷ []
  session false = []

  -- The signals that pid 1 blocks are open again; a shell has a session and the terminal.
  abbrev pub script : Spec → List Call
  script spec =
      Call.sigprocmask o.sig_unblock filled
      ∷ (session spec.wants_own_session ++ launch spec.path spec.argv)

  -- How far the child may be where a run stops: anywhere, where a call did not return, and with
  -- 127 at the end only.
  abbrev pub Fate : Stop → List Call → Type 0
  Fate never_returned rest = Unit
  Fate (exited code) rest = (code ≡ pos 127) × (rest ≡ [])
  Fate _ rest = ⊥

  -- After `start`, the child has made the calls `before` of its script, and not the `rest`.
  pub record IsAlong (spec : Spec) (start : List Call) (why : Stop) (s : Process) : Type 0 where
    pub before : List Call
    pub rest : List Call
    pub whole : before ++ rest ≡ script spec
    pub did : Did (onto before start) s
    pub fate : Fate why rest

module _ (o : Os) where
  Meets-step :
      {A : Type 0} {E : Stop → Process → Type 0} (l : List Call) (c : Call) (f : Reply → A)
      → doing c ≡ c ∷ []
      → ((s : Process) → Did (c ∷ l) s → E never_returned s)
      → Meets (Did l) (call o c >>= λ r. pure (f r)) (λ _. Did (c ∷ l)) E
  Meets-step l c f counts gone =
      Meets-bind {R = λ _. Did (c ∷ l)} _ _
        (Meets-call o c (λ s h. gone _ (ap (λ k. k ++ doings s.trace) counts ∙ ap (λ k. c ∷ k) h))
          (λ s r h e. ap (λ k. k ++ doings s.trace) counts ∙ ap (λ k. c ∷ k) h))
        λ r. Meets-pure _ (λ s h. h)

  output_unseen : (c : Call) → IsOutput c → doing c ≡ []
  output_unseen (Call.write fd text) _ = refl
  output_unseen (Call.open_file path flags) _ = refl
  output_unseen (Call.write_file path text) _ = refl
  output_unseen (Call.clock_gettime id) _ = refl
  output_unseen _ none_such = absurd none_such

  pub Did-Quiet :
      {E : Stop → Process → Type 0} (l : List Call)
      → ((s : Process) → Did l s → E never_returned s)
      → Quiet o (Did l) E
  Did-Quiet l gone = record {
    on_call = λ c is. Keeps-of_Meets _ (
        let unseen = output_unseen c is in
        Meets-call o c (λ s h. gone _ (ap (λ k. k ++ doings s.trace) unseen ∙ h))
          (λ s r h e. ap (λ k. k ++ doings s.trace) unseen ∙ h));
    on_kmsg = λ s fd h. h;
  }

cstr-cases :
    (t : Text)
    → ((has_nul t ≡ true) × ((e : IoError) × (cstr t ≡ err e)))
      ⊎ ((has_nul t ≡ false) × (cstr t ≡ ok t))
unfolding cstr
cstr-cases t = elim (Bool-cases (has_nul t)) [
  | inl nul ↦ rw nul (inl (refl, (_, refl)))
  | inr clean ↦ rw clean (inr (refl, refl))
]

cstrs-cases :
    (args : List Text)
    → ((any_nul args ≡ true) × ((e : IoError) × (cstrs args ≡ err e)))
      ⊎ ((any_nul args ≡ false) × (cstrs args ≡ ok args))
unfolding cstrs
cstrs-cases [] = inr (refl, refl)
cstrs-cases (a ∷ args) = elim (Bool-cases (has_nul a)) [
  | inl nul ↦ rw (nul, cstrs) (inl (refl, (_, refl)))
  | inr clean ↦ elim (cstrs-cases args) [
    | inl (nul, (e, fails)) ↦ rw (clean, nul, fails, cstrs) (inl (refl, (_, refl)))
    | inr (all_clean, all_pass) ↦ rw (clean, all_clean, all_pass, cstrs) (inr (refl, refl))
  ]
]

module _ (o : Os) (spec : Spec) (start : List Call) where
  abbrev opened : List Call
  opened = Call.sigprocmask o.sig_unblock filled ∷ session o spec.wants_own_session

  along :
      (before rest : List Call) (s : Process)
      → before ++ rest ≡ script o spec
      → Did (onto before start) s
      → IsAlong o spec start never_returned s
  along before rest s whole did = record {
    before = before;
    rest = rest;
    whole = whole;
    did = did;
    fate = tt;
  }

  -- Where there is nothing to launch, the script is over before `exec`.
  over : launch spec.path spec.argv ≡ [] → onto opened start ≡ onto (script o spec) start
  over nothing = rw (nothing, append-nil (session o spec.wants_own_session)) refl

  Meets-launch :
      launch spec.path spec.argv ≡ Call.execv spec.path spec.argv ∷ []
      → Meets
          (Did (onto opened start))
          (call o (Call.execv spec.path spec.argv) >>= λ r. pure (last_os_error r))
          (λ _. Did (onto (script o spec) start))
          (IsAlong o spec start)
  Meets-launch last =
      Meets-mono _ (λ s h. h) (λ _ s h. h ∙ sym over_now) (λ why s h. h)
        (Meets-step o (onto opened start) _ _ refl
          λ s h. along (script o spec) [] s (append-nil (script o spec)) (h ∙ sym over_now))
    where
      over_now : onto (script o spec) start ≡ Call.execv spec.path spec.argv ∷ onto opened start
      over_now = rw last (
          onto-append (session o spec.wants_own_session) (Call.execv spec.path spec.argv ∷ [])
            (Call.sigprocmask o.sig_unblock filled ∷ start))

  Meets-exec :
      Meets
        (Did (onto opened start))
        (exec o spec.path spec.argv)
        (λ _. Did (onto (script o spec) start))
        (IsAlong o spec start)
  unfolding exec
  Meets-exec = elim (cstr-cases spec.path) [
    | inl (nul, (e, fails)) ↦ rw (fails, exec) (Meets-pure _ (λ s h. h ∙ over (rw nul refl)))
    | inr (clean, passes) ↦ elim (cstrs-cases spec.argv) [
      | inl (nul, (e, fails)) ↦
          rw (passes, fails, exec) (Meets-pure _ (λ s h. h ∙ over (rw (clean, nul) refl)))
      | inr (all_clean, all_pass) ↦
          rw (passes, all_pass, exec) (Meets-launch (rw (clean, all_clean) refl))
    ]
  ]

  Meets-session :
      Meets
        (Did (Call.sigprocmask o.sig_unblock filled ∷ start))
        (when spec.wants_own_session
          (new_session o >>= λ _. set_ctty o o.stdin_fileno true >>= λ _. pure tt))
        (λ _. Did (onto opened start))
        (IsAlong o spec start)
  unfolding new_session set_ctty check
  Meets-session = go spec.wants_own_session refl
    where
      go :
          (wants : Bool)
          → spec.wants_own_session ≡ wants
          → Meets
              (Did (Call.sigprocmask o.sig_unblock filled ∷ start))
              (when wants (new_session o >>= λ _. set_ctty o o.stdin_fileno true >>= λ _. pure tt))
              (λ _. Did (onto (session o wants) (Call.sigprocmask o.sig_unblock filled ∷ start)))
              (IsAlong o spec start)
      go true own =
          Meets-bind _ _
            (Meets-step o _ Call.setsid _ refl λ s h.
              along (Call.sigprocmask o.sig_unblock filled ∷ Call.setsid ∷ [])
                (Call.ioctl o.stdin_fileno o.tiocsctty (pos 1) ∷ launch spec.path spec.argv) s
                (rw own refl) h)
            λ _.
              Meets-bind _ _
                (Meets-step o _ (Call.ioctl o.stdin_fileno o.tiocsctty (pos 1)) _ refl λ s h.
                  along (Call.sigprocmask o.sig_unblock filled ∷ session o true)
                    (launch spec.path spec.argv) s (rw own refl) h)
                λ _. Meets-pure _ (λ s h. h)
      go false plain = Meets-pure _ (λ s h. h)

  -- From a child that was just forked: it gives no result, and stops somewhere along its script.
  pub Along-become :
      {Q : Result ℤ → Process → Type 0} → Meets (Did start) (become o spec) Q (IsAlong o spec start)
  unfolding become unblock_all_signals check exit_child stop
  Along-become =
      Meets-bind _ _
        (Meets-step o start _ _ refl
          λ s h. along (Call.sigprocmask o.sig_unblock filled ∷ []) _ s refl h)
        λ _. Meets-bind _ _ Meets-session λ _. Meets-bind _ _ Meets-exec λ failure.
          Meets-bind _ _
            (Meets-of_Keeps _ (
              Keeps-error o
                (Did-Quiet o (onto (script o spec) start)
                  λ s h. along (script o spec) [] s (append-nil (script o spec)) h)
                _))
            λ _. record {
              at = λ s h. record {
                before = script o spec;
                rest = [];
                whole = append-nil (script o spec);
                did = h;
                fate = (refl, refl);
              };
            }
