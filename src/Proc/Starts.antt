-- ===== src/Proc/Starts.antt =====
-- `Table::spawn` on both sides of the fork, with every way to fail.
use zevory_linux.Prelude.{
  ℕ, ◌≡◌, refl, ap, sym, ◌∙◌, List, [], ◌∷◌, ◌++◌, Bool-cases, ◌==ℤ◌, ==ℤ_iff, some, ℤ, pos, negsuc,
  inl, inr, as_u64,
}
use zevory_linux.Os.{Call, Reply, Event, event, Os, Process, Stop, never_returned, pure}
use zevory_linux.Os.Rules.{Meets, Meets-call, Meets-pure, Meets-bind, Meets-mono}
use zevory_linux.Sys.{Fork, parent, child, fork, monotonic_secs}
use zevory_linux.Sys.Io.{os_error, Result, ok, err, try}
use zevory_linux.Proc.{Table, Spec, tracked, track, become, spawn_process, spawn}
use zevory_linux.Proc.Script.{doings, IsAlong, Along-become}

module _ (o : Os) (before : List Event) where
  -- What `fork` answered, and that nothing else was called.
  abbrev pub Forked : Reply → Process → Type 0
  Forked r s = (o.answer before Call.fork ≡ some r) × (s.trace ≡ event Call.fork (some r) ∷ before)

  abbrev pub Started : Table → Spec → Result ℤ × Table → Process → Type 0
  Started t spec (err e, u) s =
      (r : Reply) × Forked r s × (r.rc ≡ negsuc 0) × (e ≡ os_error r.errno) × (u ≡ t)
  Started t spec (ok pid, u) s =
      (r : Reply) × (now : Reply) × (o.answer before Call.fork ≡ some r)
      × (r.rc ≡ pid)
      × ¬ (pid ≡ pos 0)
      × (s.trace
          ≡ event (Call.clock_gettime o.clock_monotonic) (some now)
            ∷ event Call.fork (some r)
            ∷ before)
      × (u ≡ t ++ tracked spec.name pid spec.wants_own_session (as_u64 now.out) ∷ [])

  abbrev onto_fork : List Call
  onto_fork = Call.fork ∷ doings before

  -- Where nothing comes back, `fork` or the clock did not return, or this is the child.
  pub data Absent (spec : Spec) (why : Stop) (s : Process) : Type 0 where
    in_parent : why ≡ never_returned → doings s.trace ≡ onto_fork → Absent spec why s
    in_child :
        (r : Reply)
        → o.answer before Call.fork ≡ some r
        → r.rc ≡ pos 0
        → IsAlong o spec onto_fork why s
        → Absent spec why s

  abbrev Side : Result Fork → Process → Type 0
  Side (err e) s = (r : Reply) × Forked r s × (r.rc ≡ negsuc 0) × (e ≡ os_error r.errno)
  Side (ok child) s = (r : Reply) × Forked r s × (r.rc ≡ pos 0)
  Side (ok (parent pid)) s = (r : Reply) × Forked r s × (r.rc ≡ pid) × ¬ (pid ≡ pos 0)

  Meets-fork : (spec : Spec) → Meets (λ s. s.trace ≡ before) (fork o) Side (Absent spec)
  unfolding fork
  Meets-fork spec =
      Meets-bind {R = Forked} _ _
        (Meets-call o _ (λ s h. in_parent refl (ap (λ u. Call.fork ∷ doings u) h))
          (λ s r h e.
            (ap (λ u. o.answer u Call.fork) (sym h) ∙ e, ap (λ u. event Call.fork (some r) ∷ u) h)))
        λ r. elim (Bool-cases (r.rc ==ℤ negsuc 0)) [
          | inl failed ↦ rw failed (Meets-pure _ λ s h. (r, h, (==ℤ_iff _ _).0 failed, refl))
          | inr forked ↦ elim (Bool-cases (r.rc ==ℤ pos 0)) [
            | inl zero ↦ rw (forked, zero) (Meets-pure _ λ s h. (r, h, (==ℤ_iff _ _).0 zero))
            | inr more ↦
                rw (forked, more)
                  (Meets-pure _ λ s h. (r, h, refl, λ z. cc ((==ℤ_iff r.rc (pos 0)).1 z)))
          ]
        ]

  abbrev Outside : Spec → Result ℤ → Process → Type 0
  Outside spec (err e) s = (r : Reply) × Forked r s × (r.rc ≡ negsuc 0) × (e ≡ os_error r.errno)
  Outside spec (ok pid) s = (r : Reply) × Forked r s × (r.rc ≡ pid) × ¬ (pid ≡ pos 0)

  Meets-Side :
      (spec : Spec) (r : Result Fork)
      → Meets
          (Side r)
          (try r (λ forked. elim forked [ parent pid ↦ pure (ok pid) | child ↦ become o spec ]))
          (Outside spec)
          (Absent spec)
  Meets-Side spec (err e) = Meets-pure (err e) (λ s h. h)
  Meets-Side spec (ok (parent pid)) = Meets-pure (ok pid) (λ s h. h)
  Meets-Side spec (ok child) = record {
    at = λ s (r, forked, is_child).
        (Meets-mono _ (λ s' h. h) (λ a s' h. h) (λ why s' h. in_child r forked.0 is_child h)
            (Along-become o spec onto_fork)).at
          s (ap doings forked.1);
  }

  Meets-track :
      (t : Table) (spec : Spec) (pid : ℤ)
      → Meets
          (Outside spec (ok pid))
          (track o t spec.name pid spec.wants_own_session)
          (λ u. Started t spec (ok pid, u))
          (Absent spec)
  unfolding track monotonic_secs
  Meets-track t spec pid =
      Meets-bind {R = At} _ _
        (Meets-bind {R = λ reading. At (as_u64 reading.out)} _ _
          (Meets-call o _ (λ s (r, forked, same, more). in_parent refl (ap doings forked.1))
            (λ s now (r, forked, same, more) answered. (
              r,
              now,
              forked.0,
              same,
              more,
              ap (λ u. event (Call.clock_gettime o.clock_monotonic) (some now) ∷ u) forked.1,
              refl,
            )))
          λ reading. Meets-pure {Q = At} _ (λ s h. h))
        λ now. Meets-pure _ λ s (r, reading, answered, same, more, calls, clock).
          (r, reading, answered, same, more, calls, rw clock refl)
    where
      At : ℕ → Process → Type 0
      At now s =
          (r : Reply) × (reading : Reply) × (o.answer before Call.fork ≡ some r)
          × (r.rc ≡ pid)
          × ¬ (pid ≡ pos 0)
          × (s.trace
              ≡ event (Call.clock_gettime o.clock_monotonic) (some reading)
                ∷ event Call.fork (some r)
                ∷ before)
          × (now ≡ as_u64 reading.out)

  -- Whatever the kernel answers, spawn does one of three things. Where fork fails, it gives fork's
  -- error, leaves the table as it was and has called nothing else. Where fork gives a child, it
  -- gives the child's pid, which is not 0, and has read the clock and added the running child,
  -- with the name and session of the spec and that time, at the end of the table. Otherwise no
  -- result comes back: fork or the clock did not return, or fork answered 0 and this is the child,
  -- which has made a beginning of its script (opening all signals, a session with the terminal
  -- where the spec wants it, and exec of the path and arguments where none has a NUL), and exits
  -- only with 127 and after the whole script.
  pub spawn_lem :
      (t : Table) (spec : Spec)
      → Meets (λ s. s.trace ≡ before) (spawn o t spec) (Started t spec) (Absent spec)
  unfolding spawn spawn_process
  spawn_lem t spec = Meets-bind _ _ (Meets-bind _ _ (Meets-fork spec) (Meets-Side spec)) (elim [
    | err e ↦ Meets-pure _ λ s (r, forked, failed, why). (r, forked, failed, why, refl)
    | ok pid ↦ Meets-bind _ _ (Meets-track t spec pid) λ u. Meets-pure _ (λ s h. h)
  ])
