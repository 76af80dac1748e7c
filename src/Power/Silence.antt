-- ===== src/Power/Silence.antt =====
-- `wait_for_silence` ends: the clock reaches the deadline after finitely many waits.
use zevory_linux.Prelude.{
  refl, dec_lt, ℕ, zero, suc, ◌+◌, ◌-◌, ◌%◌, ◌^◌, ◌≤◌, ◌<◌, ◌≡◌, refl, List, [], ◌∷◌, true, false,
  Option, some, ℤ, leb, as_u64, arith,
}
use zevory_linux.Os.{Call, Reply, Event, Os, Process, event}
use zevory_linux.Os.Rules.{
  Meets, Keeps-of_Meets, Meets-of_Keeps, Meets-pure, Meets-bind, Meets-call, Meets-call_as,
  Meets-mono, Meets-elim, Meets-given, Meets-both, Keeps-pure, Keeps-bind, Keeps-try,
}
use zevory_linux.Sys.{poll_readable, read_signal, monotonic_secs}
use zevory_linux.Log.Quiet.{IsOutput, Quiet}
use zevory_linux.Proc.{Table}
use zevory_linux.Signal.{Signals, wait, reap_all}
use zevory_linux.Signal.Refinement.{AnyStop}
use zevory_linux.Signal.Termination.{GivesAtMost, NoAnswer, reap_all_ends}
use zevory_linux.Power.Waiting.{Keeps-reap_all, Keeps-note_arrival}
use zevory_linux.Power.{wait_rounds, wait_for_silence}

abbrev one_poll : Call → ℕ
one_poll (Call.poll _ _ _) = 1
one_poll _ = 0

-- How often `poll` was called, and answered or not.
abbrev pub polls : List Event → ℕ
polls [] = 0
polls (e ∷ t) = one_poll e.made + polls t

-- The clock goes on: `n` polls after a reading it reads at least `secs` seconds more.
abbrev pub GoesOn : Os → ℕ → ℕ → Type 0
GoesOn o n secs =
    (t u : List Event) (r r' : Reply)
    → o.answer t (Call.clock_gettime o.clock_monotonic) ≡ some r
    → o.answer u (Call.clock_gettime o.clock_monotonic) ≡ some r'
    → polls t + n ≤ polls u
    → (as_u64 r.out + secs) % 2 ^ 64 ≤ as_u64 r'.out

module _ (o : Os) where
  abbrev Polled : ℕ → Process → Type 0
  Polled m s = m ≤ polls s.trace

  output_polls :
      (c : Call) (r : Option Reply) (t : List Event) → IsOutput c → polls (event c r ∷ t) ≡ polls t
  output_polls (Call.write fd text) r t _ = omega arith
  output_polls (Call.open_file path flags) r t _ = omega arith
  output_polls (Call.write_file path text) r t _ = omega arith
  output_polls (Call.clock_gettime id) r t _ = omega arith
  output_polls _ r t none_such = absurd none_such

  Polled-Quiet : (m : ℕ) → Quiet o (Polled m) (NoAnswer o)
  Polled-Quiet m = record {
    on_call = λ c is. Keeps-of_Meets _ (
        Meets-call_as o c (λ s h e. (refl, (refl, e)))
          (λ s r h e. omega (arith, output_polls c (some r) s.trace is)));
    on_kmsg = λ s fd h. h;
  }

  Polled-Quiet_any : (m : ℕ) → Quiet o (Polled m) AnyStop
  Polled-Quiet_any m = record {
    on_call = λ c is.
        Keeps-of_Meets _ (
          Meets-call o c (λ s h. tt)
            (λ s r h e. omega (arith, output_polls c (some r) s.trace is)));
    on_kmsg = λ s fd h. h;
  }

  -- A wait polls once.
  Meets-wait :
      (signals : Signals) (millis : ℤ) (m : ℕ)
      → Meets (Polled m) (wait o signals millis) (λ _. Polled (m + 1)) (NoAnswer o)
  unfolding wait poll_readable read_signal
  Meets-wait signals millis m =
      Meets-bind _ _
        (Meets-bind {R = λ _. Polled (m + 1)} _ _
          (Meets-call_as o _ (λ s h e. (refl, (refl, e))) (λ s r h e. omega arith))
          λ r. Meets-pure _ (λ s h. h))
        λ readable. Meets-of_Keeps _ (
          Keeps-try readable _ (elim [
            | true ↦
                Keeps-bind _ _
                  (Keeps-bind _ _
                    (Keeps-of_Meets _
                      (Meets-call_as o _ (λ s h e. (refl, (refl, e))) (λ s r h e. omega arith)))
                    λ r. Keeps-pure _)
                  λ signal. Keeps-try signal _ λ s. Keeps-pure _
            | false ↦ Keeps-pure _
          ]))

module _ (o : Os) (dead n secs : ℕ) (few : GivesAtMost o dead) (goes_on : GoesOn o n secs) where
  Meets-reap_all :
      (fuel m : ℕ) (t : Table)
      → dead < fuel
      → Meets (Polled o m) (reap_all o fuel t) (λ _. Polled o m) (NoAnswer o)
  Meets-reap_all fuel m t h =
      Meets-mono _ (λ s g. (g, tt)) (λ _ s g. g.0) (λ why s g. g)
        (Meets-both _
          (Meets-of_Keeps _ (
            Keeps-reap_all o (Polled-Quiet_any o m)
              (Keeps-of_Meets _ (Meets-call o _ (λ s h. tt) (λ s r h e. omega arith))) (λ s h. tt)
              fuel t))
          (reap_all_ends o dead few fuel t h))

  -- a reading of the clock, and how many polls there were before it
  abbrev ReadAt : ℕ → ℕ → Type 0
  ReadAt start m =
      (t : List Event) × (r : Reply) × (o.answer t (Call.clock_gettime o.clock_monotonic) ≡ some r)
      × (start ≡ as_u64 r.out)
      × (polls t ≤ m)

  -- After `m` polls at least, a reading before the deadline leaves room for one more.
  Meets-now :
      (start m k j : ℕ)
      → ReadAt start m
      → m + n ≤ j + k
      → Meets
          (Polled o j)
          (monotonic_secs o)
          (λ now s. Polled o j s × (leb ((start + secs) % 2 ^ 64) now ≡ false → 0 < k))
          (NoAnswer o)
  unfolding monotonic_secs
  Meets-now start m k j (t, r, first, same, before) room =
      Meets-bind
        {R = λ r' s. Polled o j s × (leb ((start + secs) % 2 ^ 64) (as_u64 r'.out) ≡ false → 0 < k)}
        _ _
        (Meets-call_as o _ (λ s h e. (refl, (refl, e)))
          (λ s r' h e. (
            omega (arith, h),
            λ early. elim (dec_lt 0 k) [
              | yes more ↦ more
              | no out ↦
                  let over = goes_on t s.trace r r' first e (omega (arith, before, room, h, out)) in
                  absurd (ground (arith, over, same, early))
            ],
          )))
        λ r'. Meets-pure _ (λ s h. h)

  Meets-wait_rounds :
      (fuel : ℕ) (signals : Signals) (start m rounds k j : ℕ) (t : Table)
      → dead < fuel
      → ReadAt start m
      → m + n ≤ j + k
      → k < rounds
      → Meets
          (Polled o j)
          (wait_rounds o fuel signals rounds t ((start + secs) % 2 ^ 64))
          (λ _ _. Unit)
          (NoAnswer o)
  unfolding wait_rounds
  Meets-wait_rounds fuel signals start m zero k j t f first room h = elim h [ ]
  Meets-wait_rounds fuel signals start m (suc rounds) k j t f first room h =
      Meets-bind _ _ (Meets-reap_all fuel j t f) λ reaped.
        Meets-elim reaped.0.children_left _ _
          (λ some_left. Meets-bind _ _ (Meets-now start m k j first room) λ now.
            Meets-given _ _ λ more.
              Meets-elim (leb ((start + secs) % 2 ^ 64) now) _ _ (λ over. Meets-pure _ (λ s g. tt))
                (λ early.
                  let one_more = more early in
                  Meets-bind _ _ (Meets-wait o signals _ j) λ arrived.
                    Meets-bind _ _
                      (Meets-of_Keeps _ (Keeps-note_arrival o (Polled-Quiet o (j + 1)) arrived))
                      λ _.
                        Meets-wait_rounds fuel signals start m rounds (k - 1) (j + 1) reaped.1 f
                          first (omega arith) (omega arith)))
          (λ none_left. Meets-pure _ (λ s g. tt))

  pub wait_for_silence_ends :
      (fuel : ℕ) (signals : Signals) (t : Table)
      → dead < fuel
      → n < fuel
      → Meets (λ _. Unit) (wait_for_silence o fuel signals t secs) (λ _ _. Unit) (NoAnswer o)
  unfolding wait_for_silence monotonic_secs
  wait_for_silence_ends fuel signals t f h = record {
    at = λ s g. (starting (polls s.trace)).at s refl;
  }
    where
      starting :
          (m : ℕ)
          → Meets
              (λ s. polls s.trace ≡ m)
              (wait_for_silence o fuel signals t secs)
              (λ _ _. Unit)
              (NoAnswer o)
      starting m =
          Meets-bind _ _
            (Meets-bind {R = λ r s. Polled o m s × ReadAt (as_u64 r.out) m} _ _
              (Meets-call_as o _ (λ s g e. (refl, (refl, e)))
                (λ s r g e. (omega (arith, g), (s.trace, r, e, refl, omega (arith, g)))))
              λ r. Meets-pure {Q = λ now s. Polled o m s × ReadAt now m} _ (λ s g. g))
            λ now.
              Meets-given _ _
                λ first. Meets-wait_rounds fuel signals now m fuel n m t f first (omega arith) h
