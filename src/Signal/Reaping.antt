-- ===== src/Signal/Reaping.antt =====
-- `reap_all` against a plain account of what `waitpid` said, and its end.
use zevory_linux.Prelude.{
  ℕ, ◌≡◌, ◌∙◌, sym, ap, List, [], ◌∷◌, ◌++◌, Bool, true, false, ◌||◌, Option, none, some, ℤ,
  is_positive, if◌then◌else◌, arith,
}
use zevory_linux.Os.{Call, Reply, Event, Os, Process, Stop, M}
use zevory_linux.Os.Rules.{
  Keeps, Meets, Keeps-pure, Meets-pure, Meets-bind, Meets-of_Keeps, Meets-given, Meets-option,
}
use zevory_linux.Log.Quiet.{Quiet, Keeps-info, Keeps-warn, Keeps-monotonic_secs}
use zevory_linux.Proc.{
  Table, State, running, exited, killed, Departed, finish, state_from, record_exit,
}
use zevory_linux.Signal.{log_departure, bury, shorter}

-- The child that a call gave, if it was a `waitpid` that gave one.
abbrev given : Call → Option Reply → List (ℤ × ℤ)
given (Call.waitpid _ _) (some r) = if is_positive r.rc then (r.rc, r.out) ∷ [] else []
given _ _ = []

-- The children that `waitpid` has given, with their statuses, the last one first.
abbrev pub reaps : List Event → List (ℤ × ℤ)
reaps [] = []
reaps (e ∷ t) = given e.made e.reply ++ reaps t

module _ (o : Os) where
  -- The table after one exit: an unknown pid changes nothing.
  abbrev pub after_exit : Table → ℤ × ℤ → Table
  after_exit t (pid, status) = elim (finish pid (state_from o status) t) [
    | none ↦ t
    | some (e, t') ↦ t'
  ]

  -- The table after some exits, the last one first.
  abbrev pub after_exits : Table → List (ℤ × ℤ) → Table
  after_exits t [] = t
  after_exits t (x ∷ older) = after_exit (after_exits t older) x

  abbrev pub is_known : Table → ℤ × ℤ → Bool
  is_known t (pid, status) = elim (finish pid (state_from o status) t) [
    | none ↦ false
    | some _ ↦ true
  ]

  -- Whether one of some exits was a child of the table.
  abbrev pub any_known : Table → List (ℤ × ℤ) → Bool
  any_known t [] = false
  any_known t (x ∷ older) = is_known (after_exits t older) x || any_known t older

abbrev knew : Option Departed → Bool
knew none = false
knew (some d) = true

abbrev pub is_some : Option ℕ → Bool
is_some none = false
is_some (some n) = true

buried :
    (shortest : Option ℕ) (n : ℕ) {b : Bool}
    → true ≡ b
    → is_some (shorter shortest n) ≡ (b || is_some shortest)
unfolding shorter
buried none n e = ground arith
buried (some m) n e = ground arith

module _ (o : Os) {I : Process → Type 0} {E : Stop → Process → Type 0} (q : Quiet o I E) where
  pub Keeps-log_departure : (gone : Departed) → Keeps I E (log_departure o gone)
  unfolding log_departure
  Keeps-log_departure gone =
      by_state gone.state _ _ _ (λ c. Keeps-info o q _) (λ c. Keeps-warn o q _) (Keeps-pure tt)
    where
      by_state :
          (st : State) (f g : ℤ → M Unit) (m : M Unit)
          → ((c : ℤ) → Keeps I E (f c))
          → ((c : ℤ) → Keeps I E (g c))
          → Keeps I E m
          → Keeps I E (elim st [ exited c ↦ f c | killed c ↦ g c | running ↦ m ])
      by_state (exited c) f g m kf kg km = kf c
      by_state (killed c) f g m kf kg km = kg c
      by_state running f g m kf kg km = km

  -- What `record_exit` gives: the table after the exit, and a departed child if it knew one.
  abbrev Recorded : Table → ℤ × ℤ → Option Departed × Table → Process → Type 0
  Recorded t x r s = I s × ((r.1 ≡ after_exit o t x) × (knew r.0 ≡ is_known o t x))

  Meets-record_exit :
      (t : Table) (pid status : ℤ)
      → Meets I (record_exit o t pid status) (Recorded t (pid, status)) E
  unfolding record_exit
  Meets-record_exit t pid status =
      Meets-option (finish pid (state_from o status) t) _ _
        (λ found e.
          Meets-bind _ _ (Meets-of_Keeps _ (Keeps-monotonic_secs o q))
            λ now. Meets-pure _ (λ s h. (h, (rw (e, after_exit), rw (e, is_known)))))
        (λ e. Meets-pure _ (λ s h. (h, (rw (e, after_exit), rw (e, is_known)))))

  abbrev Buried : Table → Option ℕ → ℤ × ℤ → Table × Option ℕ → Process → Type 0
  Buried t shortest x r s =
      I s × ((r.0 ≡ after_exit o t x) × (is_some r.1 ≡ (is_known o t x || is_some shortest)))

  pub Meets-bury :
      (t : Table) (shortest : Option ℕ) (pid status : ℤ)
      → Meets I (bury o t shortest pid status) (Buried t shortest (pid, status)) E
  unfolding bury
  Meets-bury t shortest pid status = Meets-bind _ _ (Meets-record_exit t pid status) λ r.
      Meets-given _ _ λ facts.
        Meets-option r.0 _ _
          (λ gone e. Meets-bind _ _ (Meets-of_Keeps _ (Keeps-log_departure gone)) λ _.
            Meets-pure _
              (λ s h. (h, (facts.0, buried shortest gone.ran_for (ap knew (sym e) ∙ facts.1)))))
          (λ e.
            Meets-bind _ _ (Meets-of_Keeps _ (Keeps-info o q _))
              λ _. Meets-pure _ (λ s h. (h, (facts.0, rw (← facts.1, e)))))
