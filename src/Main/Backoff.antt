-- ===== src/Main/Backoff.antt =====
-- When supervision starts a shell again: `respawn`.
use zevory_linux.Prelude.{
  ℕ, ◌≡◌, refl, List, [], ◌∷◌, ◌+◌, ◌%◌, ◌^◌, ◌==◌, leb, ◌≤◌, ◌<◌, some, ℤ, inl, inr, ap, sym, ◌∙◌,
  subst, Option-cases, as_u64, arith,
}
use zevory_linux.Os.{Call, Reply, Event, event, Os, Process, M, ◌>>=◌}
use zevory_linux.Os.Rules.{
  Meets-of_Keeps, Meets-both, Meets, Meets-any, Meets-call, Meets-given, Meets-result, Meets-pure,
  Meets-bind, Meets-mono, Meets-elim,
}
use zevory_linux.Os.History.{Extends-call, forks}
use zevory_linux.Lifecycle.Lasting.NoStart.{NoStart, NoStart-Lasting}
use zevory_linux.Lifecycle.Lasting.Serving.{Lasts-after_reaping}
use zevory_linux.Sys.{monotonic_secs}
use zevory_linux.Sys.Io.{ok}
use zevory_linux.Proc.{Table, Spec, running_count}
use zevory_linux.Proc.Starts.{Started, spawn_lem}
use zevory_linux.Shell
use zevory_linux.Shell.{Rescue}
use zevory_linux.Signal.Refinement.{AnyStop}
use zevory_linux.Main.Setup.{or_panic}
use zevory_linux.Main.Shells.{Gives, Gives-panic, Gives-park}
use zevory_linux.Main.Supervise.{Watch, start, give_up_or_fall_back, respawn, after_reaping}

module _ (o : Os) (before : List Event) where
  abbrev clock_read : Reply → List Event
  clock_read now = event (Call.clock_gettime o.clock_monotonic) (some now) ∷ before

  -- A round starts a shell, or leaves everything as it was.
  pub data Respawned (w w' : Watch) (s : Process) : Type 0 where
    busy : ¬ (running_count w.table ≡ 0) → w' ≡ w → s.trace ≡ before → Respawned w w' s
    early :
        running_count w.table ≡ 0
        → (now : Reply) → as_u64 now.out < w.respawn_at
        → w' ≡ w
        → s.trace ≡ clock_read now
        → Respawned w w' s
    restarted :
        running_count w.table ≡ 0
        → (now : Reply) → w.respawn_at ≤ as_u64 now.out
        → (spec : Spec) → Shell.shell w.rescue ≡ some spec
        → (pid : ℤ) (u : Table) → Started o (clock_read now) w.table spec (ok pid, u) s
        → w' ≡ record w { table = u }
        → Respawned w w' s

module _ (o : Os) (fuel : ℕ) (before : List Event) where
  -- A shell that does not start is not come back from.
  abbrev Running : Table → Rescue → Table → Process → Type 0
  Running t rescue u s =
      (spec : Spec) × (Shell.shell rescue ≡ some spec)
      × ((pid : ℤ) × Started o before t spec (ok pid, u) s)

  Meets-start :
      (t : Table) (rescue : Rescue)
      → Meets (λ s. s.trace ≡ before) (start o fuel t rescue) (Running t rescue) AnyStop
  unfolding start or_panic
  Meets-start t rescue =
      Meets-bind {R = λ spec s. (s.trace ≡ before) × (Shell.shell rescue ≡ some spec)} _ _ chosen
        λ spec. Meets-given _ _ λ here.
          Meets-bind _ _
            (Meets-mono _ (λ s h. h) (λ r s h. h) (λ why s h. tt) (spawn_lem o before t spec))
            λ started.
              Meets-result started.0 _ _
                (λ pid e. Meets-pure _ λ s h.
                  (spec, here, (pid, subst (λ v. Started o before t spec (v, started.1) s) e h)))
                (λ e' e. no_result _ (Gives-park o fuel _))
    where
      no_result :
          {A : Type 0} {P : Process → Type 0} {Q : A → Process → Type 0} (m : M A)
          → Gives m (λ _. ⊥)
          → Meets P m Q AnyStop
      no_result m never = Meets-mono m (λ s h. tt) (λ a s h. absurd h) (λ why s h. tt) never

      chosen :
          Meets
            (λ s. s.trace ≡ before)
            (or_panic o (Shell.shell rescue))
            (λ spec s. (s.trace ≡ before) × (Shell.shell rescue ≡ some spec))
            AnyStop
      chosen = elim (Option-cases (Shell.shell rescue)) [
        | inl none_such ↦ rw none_such (no_result _ (Gives-panic o _))
        | inr (spec, here) ↦ rw here (Meets-pure spec (λ s h. (h, refl)))
      ]

module _ (o : Os) (fuel : ℕ) (before : List Event) where
  Meets-clock :
      Meets
        (λ s. s.trace ≡ before)
        (monotonic_secs o)
        (λ now s.
          (reading : Reply) × (now ≡ as_u64 reading.out) × (s.trace ≡ clock_read o before reading))
        AnyStop
  unfolding monotonic_secs
  Meets-clock =
      Meets-bind {R = λ reading s. s.trace ≡ clock_read o before reading} _ _
        (Meets-call o _ (λ s h. tt)
          (λ s r h e. ap (λ u. event (Call.clock_gettime o.clock_monotonic) (some r) ∷ u) h))
        λ reading. Meets-pure _ (λ s h. (reading, refl, h))

  -- Where the top of supervise's loop returns: with a running child in the table nothing is called
  -- or changed; with none and the clock before respawn_at, only the clock is read; and otherwise
  -- the shell of the choice was started, its pid is not 0, and nothing but the table changed, by
  -- the running child at its end.
  pub respawn_lem :
      (w : Watch) → Meets (λ s. s.trace ≡ before) (respawn o fuel w) (Respawned o before w) AnyStop
  unfolding respawn
  respawn_lem w =
      Meets-elim (running_count w.table == 0) _ _
        (λ idle. Meets-bind _ _ Meets-clock λ now.
          Meets-elim (leb w.respawn_at now) _ _
            (λ over. record {
              at = λ s (reading, same, calls).
                  (Meets-bind {P = λ s'. s'.trace ≡ clock_read o before reading} _ _
                      (Meets-start o fuel (clock_read o before reading) w.table w.rescue)
                      λ u.
                        Meets-pure {Q = Respawned o before w} (record w { table = u })
                          λ s' (spec, here, (pid, started)).
                            restarted (ground arith) reading (ground (arith, same)) spec here pid u
                              started refl).at
                    s calls;
            })
            (λ soon. Meets-pure w λ s (reading, same, calls).
              early (ground arith) reading (ground (arith, same)) refl calls))
        (λ some_run. Meets-pure w (λ s h. busy (λ z. ground arith) refl h))

module _ (o : Os) (fuel : ℕ) (before : List Event) where
  -- What comes of a shell's quick death and the round after it
  pub data HeldBack (w w' : Watch) (s : Process) : Type 0 where
    nothing_yet : w'.table ≡ w.table → NoStart before s.trace → HeldBack w w' s
    started_again :
        (first now : Reply)
        → o.answer before (Call.clock_gettime o.clock_monotonic) ≡ some first
        → (as_u64 first.out + 1) % 2 ^ 64 ≤ as_u64 now.out
        → (between : List Event) → NoStart before between
        → (spec : Spec) (pid : ℤ)
        → Started o (clock_read o between now) w.table spec (ok pid, w'.table) s
        → HeldBack w w' s

  abbrev Delayed : Watch → Watch → Type 0
  Delayed w v =
      (first : Reply) × (o.answer before (Call.clock_gettime o.clock_monotonic) ≡ some first)
      × (v.table ≡ w.table)
      × (v.respawn_at ≡ (as_u64 first.out + 1) % 2 ^ 64)

  Meets-Delayed :
      (w : Watch)
      → Meets (λ s. s.trace ≡ before) (after_reaping o fuel w (some 0)) (λ v s. Delayed w v) AnyStop
  unfolding after_reaping monotonic_secs
  Meets-Delayed w =
      Meets-bind _ _
        (Meets-bind
          {R = λ reading s. Delayed w (record w { respawn_at = (as_u64 reading.out + 1) % 2 ^ 64 })}
          _ _
          (Meets-call o _ (λ s h. tt)
            (λ s r h e. (
              r,
              subst (λ u. o.answer u (Call.clock_gettime o.clock_monotonic) ≡ some r) h e,
              refl,
              refl,
            )))
          λ reading.
            Meets-pure {Q = λ now s. Delayed w (record w { respawn_at = (now + 1) % 2 ^ 64 })} _
              (λ s h. h))
        λ now. record {
          at = λ s h.
              (Meets-bind {P = λ _. Unit {0}} _ _ (Meets-any (give_up_or_fall_back o fuel w.rescue))
                  λ rescue. Meets-pure _ (λ s' g. h)).at
                s tt;
        }

  Meets-after_reaping :
      (w : Watch)
      → Meets
          (λ s. s.trace ≡ before)
          (after_reaping o fuel w (some 0))
          (λ v s. NoStart before s.trace × Delayed w v)
          AnyStop
  Meets-after_reaping w =
      Meets-mono _ (λ s h. ((([], h), ap forks h), h)) (λ v s h. h) (λ why s h. tt)
        (Meets-both _
          (Meets-of_Keeps _ (Lasts-after_reaping o (NoStart-Lasting o before) fuel w (some 0)))
          (Meets-Delayed w))

  to_held :
      (w v w' : Watch) (between : List Event) (s : Process)
      → NoStart before between
      → Delayed w v
      → Respawned o between v w' s
      → HeldBack w w' s
  to_held w v w' between s none_yet (first, answered, table, at) (busy some_run same calls) =
      nothing_yet (ap (λ x. x.table) same ∙ table) (subst (NoStart before) (sym calls) none_yet)
  to_held w v w' between s none_yet (first, answered, table, at) (early idle now soon same calls) =
      nothing_yet (ap (λ x. x.table) same ∙ table) (
        subst (NoStart before) (sym calls)
          (Extends-call before between (event _ (some now)) none_yet.0, none_yet.1))
  to_held w v w' between s none_yet (first, answered, table, at)
        (restarted idle now over spec here pid u started same) =
      started_again first now answered (rw (sym at) over) between none_yet spec pid (
        subst (λ x. Started o (clock_read o between now) w.table spec (ok pid, x) s)
          (sym (ap (λ x. x.table) same))
          (subst (λ x. Started o (clock_read o between now) x spec (ok pid, u) s) table started))

  -- After a shell that lived for less than a second, where after_reaping, told of its life, and
  -- the next respawn return: fork was not called and the table is as it was; or fork was called
  -- once, after a reading of the clock not before the reading right after the death plus one
  -- second, as 64 bits, and the new child stands at the end of the table.
  pub held_back :
      (w : Watch)
      → Meets
          (λ s. s.trace ≡ before)
          (after_reaping o fuel w (some 0) >>= λ v. respawn o fuel v)
          (HeldBack w)
          AnyStop
  held_back w = Meets-bind _ _ (Meets-after_reaping w) λ v. record {
    at = λ s h.
        (Meets-mono _ (λ s' e. e) (λ w' s' r. to_held w v w' s.trace s' h.0 h.1 r) (λ why s' e. tt)
            (respawn_lem o fuel s.trace v)).at
          s refl;
  }
