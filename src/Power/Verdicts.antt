-- ===== src/Power/Verdicts.antt =====
-- What the answer of `wait_for_silence` rests on.
use zevory_linux.Prelude.{
  ap, sym, ◌∙◌, subst, ℕ, zero, suc, ◌+◌, ◌%◌, ◌^◌, ◌≤◌, ◌≡◌, refl, List, [], ◌∷◌, Bool, true,
  false, Option, none, some, negsuc, as_u64, leb, arith,
}
use zevory_linux.Os.{Call, Reply, Event, Os, Process, out_of_fuel}
use zevory_linux.Os.Rules.{
  Meets-any, Meets, Meets-pure, Meets-stop, Meets-bind, Meets-call, Meets-elim, Meets-mono,
  Meets-given,
}
use zevory_linux.Sys.{
  reaped_child, still_running, no_children_left, reaped_of, reap_one, monotonic_secs,
}
use zevory_linux.Proc.{Table}
use zevory_linux.Signal.{Signals, bury, reap_from, reap_all, wait}
use zevory_linux.Signal.Refinement.{AnyStop, NoMore, Says, reaped_of-Says}
use zevory_linux.Power.{note_arrival, wait_rounds, wait_for_silence}

module _ (o : Os) where
  -- The newest call is a `waitpid` that found no child of this process.
  abbrev pub NoneLeft : List Event → Type 0
  NoneLeft [] = ⊥
  NoneLeft (e ∷ t) =
      (e.made ≡ Call.waitpid (negsuc 0) o.wnohang)
      × ((r : Reply) × (e.reply ≡ some r) × (reaped_of o r ≡ no_children_left) × NoMore o false r)

  -- The newest call is a reading of the clock, not before `deadline`.
  abbrev pub TimeIsUp : ℕ → List Event → Type 0
  TimeIsUp deadline [] = ⊥
  TimeIsUp deadline (e ∷ t) =
      (e.made ≡ Call.clock_gettime o.clock_monotonic)
      × ((r : Reply) × (e.reply ≡ some r) × (deadline ≤ as_u64 r.out))

  abbrev pub Rests : ℕ → Bool → List Event → Type 0
  Rests deadline true t = NoneLeft t
  Rests deadline false t = TimeIsUp deadline t

  abbrev Always : Process → Type 0
  Always s = Unit

  Meets-reap_one :
      Meets Always (reap_one o) (λ x s. x ≡ no_children_left → NoneLeft s.trace) AnyStop
  unfolding reap_one
  Meets-reap_one =
      Meets-bind {R = λ r s. reaped_of o r ≡ no_children_left → NoneLeft s.trace} _ _
        (Meets-call o _ (λ s h. tt)
          (λ s r h e none_left.
            (refl, (r, refl, none_left, subst (λ q. Says o q r) none_left (reaped_of-Says o r)))))
        λ r. Meets-pure _ (λ s h. h)

  Meets-reap_from :
      (fuel : ℕ) (t : Table) (shortest : Option ℕ)
      → Meets Always (reap_from o fuel t shortest) (λ r s. r.0 ≡ false → NoneLeft s.trace) AnyStop
  unfolding reap_from
  Meets-reap_from zero t shortest = Meets-stop out_of_fuel (λ s h. tt)
  Meets-reap_from (suc fuel) t shortest = Meets-bind _ _ Meets-reap_one (elim [
    | still_running ↦ Meets-pure _ (λ s h e. cc)
    | no_children_left ↦ Meets-pure _ (λ s h e. h refl)
    | reaped_child pid status ↦
        Meets-bind _ _ (Meets-any (bury o t shortest pid status)) λ b. Meets-reap_from fuel b.0 b.1
  ])

  Meets-reap_all :
      (fuel : ℕ) (t : Table)
      → Meets Always
          (reap_all o fuel t)
          (λ r s. r.0.children_left ≡ false → NoneLeft s.trace)
          AnyStop
  unfolding reap_all
  Meets-reap_all fuel t = Meets-bind _ _ (Meets-reap_from fuel t none) λ r. Meets-pure _ (λ s h. h)

  Meets-now :
      (deadline : ℕ)
      → Meets Always
          (monotonic_secs o)
          (λ now s. leb deadline now ≡ true → TimeIsUp deadline s.trace)
          AnyStop
  unfolding monotonic_secs
  Meets-now deadline =
      Meets-bind {R = λ r s. leb deadline (as_u64 r.out) ≡ true → TimeIsUp deadline s.trace} _ _
        (Meets-call o _ (λ s h. tt) (λ s r h e over. (refl, (r, refl, ground arith))))
        λ r. Meets-pure _ (λ s h. h)

module _ (o : Os) (fuel : ℕ) (signals : Signals) where
  Meets-wait_rounds :
      (rounds : ℕ) (t : Table) (deadline : ℕ)
      → Meets
          (Always o)
          (wait_rounds o fuel signals rounds t deadline)
          (λ r s. Rests o deadline r.0 s.trace)
          AnyStop
  unfolding wait_rounds
  Meets-wait_rounds zero t deadline = Meets-stop out_of_fuel (λ s h. tt)
  Meets-wait_rounds (suc rounds) t deadline = Meets-bind _ _ (Meets-reap_all o fuel t) λ reaped.
      Meets-elim reaped.0.children_left _ _
        (λ some_left.
          Meets-bind _ _
            (Meets-mono _ (λ s h. tt) (λ _ s h. h) (λ why s h. h) (Meets-now o deadline))
            λ now.
              Meets-elim (leb deadline now) _ _ (λ over. Meets-pure _ (λ s h. h over))
                (λ early. Meets-bind _ _ (Meets-any (wait o signals _)) λ arrived.
                  Meets-bind _ _ (Meets-any (note_arrival o arrived))
                    λ _. Meets-wait_rounds rounds reaped.1 deadline))
        (λ none_left. Meets-pure _ (λ s h. h none_left))

  -- Whatever the kernel answers, where wait_for_silence returns, its answer rests on its newest
  -- call: true on a waitpid that failed with ECHILD, false on a reading of the clock that is not
  -- before the first reading plus the seconds, as 64 bits.
  pub wait_for_silence_lem :
      (before : List Event) (t : Table) (secs : ℕ)
      → Meets
          (λ s. s.trace ≡ before)
          (wait_for_silence o fuel signals t secs)
          (λ r s.
            (first : Reply) × (o.answer before (Call.clock_gettime o.clock_monotonic) ≡ some first)
            × Rests o ((as_u64 first.out + secs) % 2 ^ 64) r.0 s.trace)
          AnyStop
  unfolding wait_for_silence monotonic_secs
  wait_for_silence_lem before t secs =
      Meets-bind _ _
        (Meets-bind {R = λ r s. Always o s × FirstIs (as_u64 r.out)} _ _
          (Meets-call o _ (λ s h. tt)
            (λ s r h e. (
              tt,
              (r, ap (λ u. o.answer u (Call.clock_gettime o.clock_monotonic)) (sym h) ∙ e, refl),
            )))
          λ r. Meets-pure {Q = λ now s. Always o s × FirstIs now} _ (λ s h. h))
        λ now. Meets-given _ _ λ (first, answered, same).
          Meets-mono _ (λ s h. h)
            (λ r s h.
              (first, answered, subst (λ n. Rests o ((n + secs) % 2 ^ 64) r.0 s.trace) same h))
            (λ why s h. h) (Meets-wait_rounds fuel t _)
    where
      FirstIs : ℕ → Type 0
      FirstIs now =
          (first : Reply) × (o.answer before (Call.clock_gettime o.clock_monotonic) ≡ some first)
          × (now ≡ as_u64 first.out)
