-- ===== src/Mount/Attempts.antt =====
-- `mount_all` tries every filesystem of the table, in order, and counts the ones that failed.
use zevory_linux.Prelude.{
  ℕ, ◌+◌, ◌≡◌, refl, ap, List, [], ◌∷◌, ◌++◌, Option, some, pos, ◌==ℤ◌, if◌then◌else◌, arith, All,
  Bool-cases, ==ℤ_iff, inl, inr,
}
use zevory_linux.Os.{Text, Call, Reply, Event, Os, Process, pure, ◌>>=◌, event}
use zevory_linux.Os.Rules.{
  Keeps-of_Meets, Meets, Meets-of_Keeps, Meets-pure, Meets-bind, Meets-call, Meets-mono,
  Meets-exists, Meets-given,
}
use zevory_linux.Sys.{cstr, checked, check, transpose_cstr, last_os_error}
use zevory_linux.Sys
use zevory_linux.Sys.Io.{IoError, Result, ok, err}
use zevory_linux.Sys.Written.{NeverCut}
use zevory_linux.Log.Quiet.{IsOutput, Quiet, Keeps-warn}
use zevory_linux.Mount.{
  Vfs, opts_of, forgive_busy, table, create_dir_all, mount_one, mount_each, mount_all,
}
use zevory_linux.Mount.Plain.{IsPlain, mount_plain, table-IsPlain}

-- The events of making a mount point ready and of mounting
abbrev attempt : Event → List Event
attempt e = elim e.made [ Call.create_dir_all _ ↦ e ∷ [] | Call.mount _ _ _ _ _ ↦ e ∷ [] | _ ↦ [] ]

-- Of all calls, the last one first.
abbrev pub attempts : List Event → List Event
attempts [] = []
attempts (e ∷ t) = attempt e ++ attempts t

-- One filesystem was tried: its mount point was made ready and it was mounted, with its own source,
-- type, flags and options; or there is no mount point, and nothing was mounted.
pub data Tried (v : Vfs) (before : List Event) : List Event → Type 0 where
  no_directory :
      (r : Reply)
      → ¬ (r.rc ≡ pos 0)
      → Tried v before (event (Call.create_dir_all v.target) (some r) ∷ before)
  mounted :
      (r q : Reply)
      → r.rc ≡ pos 0
      → Tried v before (
          event (Call.mount v.source v.target v.fstype v.flags v.content) (some q)
          ∷ event (Call.create_dir_all v.target) (some r)
          ∷ before)

-- Filesystems were tried one after the other, in their order.
pub data TriedEach : List Vfs → List Event → List Event → Type 0 where
  over : (log : List Event) → TriedEach [] log log
  next :
      (v : Vfs) (vs : List Vfs) (before between log : List Event)
      → Tried v before between
      → TriedEach vs between log
      → TriedEach (v ∷ vs) before log

module _ (o : Os) where
  -- What counts against a filesystem: no directory, or no mount for any reason but EBUSY.
  abbrev setback : Call → Option Reply → ℕ
  setback (Call.create_dir_all path) (some r) = if r.rc ==ℤ pos 0 then 0 else 1
  setback (Call.mount _ _ _ _ _) (some r) =
      if r.rc ==ℤ pos 0 then 0 else if r.errno ==ℤ o.ebusy then 0 else 1
  setback _ _ = 0

  abbrev pub setbacks : List Event → ℕ
  setbacks [] = 0
  setbacks (e ∷ t) = setback e.made e.reply + setbacks t

  -- `b` setbacks, and the attempts `d`
  pub record Standing (b : ℕ) (d : List Event) (s : Process) : Type 0 where
    pub failures : setbacks s.trace ≡ b
    pub tried : attempts s.trace ≡ d

  Standing-output :
      (c : Call) (r : Option Reply) (b : ℕ) (d : List Event) (s : Process)
      → IsOutput c
      → Standing b d s
      → Standing b d (record s { trace = event c r ∷ s.trace })
  Standing-output (Call.write fd text) r b d s _ h = record {
    failures = omega (arith, h.failures);
    tried = h.tried;
  }
  Standing-output (Call.open_file path flags) r b d s _ h = record {
    failures = omega (arith, h.failures);
    tried = h.tried;
  }
  Standing-output (Call.write_file path text) r b d s _ h = record {
    failures = omega (arith, h.failures);
    tried = h.tried;
  }
  Standing-output (Call.clock_gettime id) r b d s _ h = record {
    failures = omega (arith, h.failures);
    tried = h.tried;
  }
  Standing-output _ r b d s none_such h = absurd none_such

  Standing-Quiet : (b : ℕ) (d : List Event) → Quiet o (Standing b d) NeverCut
  Standing-Quiet b d = record {
    on_call = λ c is.
        Keeps-of_Meets _
          (Meets-call o c (λ s h. refl) (λ s r h e. Standing-output c (some r) b d s is h));
    on_kmsg = λ s fd h. record { failures = h.failures; tried = h.tried };
  }

  abbrev cost : Result Unit → ℕ
  cost (ok _) = 0
  cost (err e) = 1

  Meets-create :
      (b : ℕ) (d : List Event) (path : Text)
      → Meets
          (Standing b d)
          (create_dir_all o path)
          (λ x s.
            (r : Reply) × (Standing (cost x + b) (event (Call.create_dir_all path) (some r) ∷ d) s
              × (checked r ≡ x)))
          NeverCut
  unfolding create_dir_all checked
  Meets-create b d path =
      Meets-bind
        {R = λ r. Standing (cost (checked r) + b) (event (Call.create_dir_all path) (some r) ∷ d)} _
        _
        (Meets-call o _ (λ s h. refl)
          (λ s r h e. record {
            failures = ground (arith, h.failures);
            tried = ap (◌∷◌ (event (Call.create_dir_all path) (some r))) h.tried;
          }))
        λ r. Meets-pure _ (λ s h. (r, (h, refl)))

  abbrev mounting : Vfs → Call
  mounting v = Call.mount v.source v.target v.fstype v.flags v.content

  Meets-mount :
      (b : ℕ) (d : List Event) (v : Vfs)
      → IsPlain v
      → Meets
          (Standing b d)
          (Sys.mount o (opts_of v) >>= λ r. pure (forgive_busy o r))
          (λ x s. (q : Reply) × Standing (cost x + b) (event (mounting v) (some q) ∷ d) s)
          NeverCut
  unfolding check checked forgive_busy
  Meets-mount b d v h = rw (mount_plain o v h) (
      Meets-bind
        {R = λ r s.
          (q : Reply) × Standing (cost (forgive_busy o r) + b) (event (mounting v) (some q) ∷ d) s}
        _ _
        (Meets-bind
          {R = λ q.
            Standing (cost (forgive_busy o (checked q)) + b) (event (mounting v) (some q) ∷ d)}
          _ _
          (Meets-call o _ (λ s g. refl)
            (λ s r g e. record {
              failures = ground (arith, g.failures);
              tried = ap (◌∷◌ (event (mounting v) (some r))) g.tried;
            }))
          λ q. Meets-pure _ (λ s g. (q, g)))
        λ r. Meets-pure _ (λ s g. g))

  checked_ok : (r : Reply) → checked r ≡ ok tt → r.rc ≡ pos 0
  unfolding checked
  checked_ok r e = elim (Bool-cases (r.rc ==ℤ pos 0)) [
    | inl good ↦ (==ℤ_iff r.rc (pos 0)).0 good
    | inr bad ↦ ground arith
  ]

  checked_err : (r : Reply) (why : IoError) → checked r ≡ err why → ¬ (r.rc ≡ pos 0)
  unfolding checked
  checked_err r why e good = let same = (==ℤ_iff r.rc (pos 0)).1 good in ground (arith, same)

  -- One more filesystem was tried, with what counts against it.
  abbrev OneTried : Vfs → ℕ → List Event → Result Unit → Process → Type 0
  OneTried v b d x s = (log : List Event) × (Standing (cost x + b) log s × Tried v d log)

  Meets-mount_one :
      (b : ℕ) (d : List Event) (v : Vfs)
      → IsPlain v
      → Meets (Standing b d) (mount_one o v) (OneTried v b d) NeverCut
  unfolding mount_one
  Meets-mount_one b d v h = Meets-bind _ _ (Meets-create b d v.target) (elim [
    | ok _ ↦ Meets-exists _ λ r. Meets-given _ _ λ made.
        Meets-mono _ (λ s g. record { failures = omega (arith, g.failures); tried = g.tried })
          (λ x s (q, g). (_, (g, mounted r q (checked_ok r made)))) (λ why s g. g)
          (Meets-mount b _ v h)
    | err e ↦ Meets-exists _ λ r.
        Meets-given _ _
          λ made. Meets-pure (err e) (λ s g. (_, (g, no_directory r (checked_err r e made))))
  ])

  abbrev pub AllTried : List Vfs → ℕ → List Event → ℕ → Process → Type 0
  AllTried vs b d n s = (log : List Event) × (Standing (n + b) log s × TriedEach vs d log)

  Meets-mount_each :
      (vs : List Vfs) (failed b : ℕ) (d : List Event)
      → All IsPlain vs
      → Meets (Standing (failed + b) d) (mount_each o vs failed) (AllTried vs b d) NeverCut
  unfolding mount_each
  Meets-mount_each [] failed b d h = Meets-pure failed (λ s g. (d, (g, over d)))
  Meets-mount_each (v ∷ vs) failed b d h =
      Meets-bind _ _ (Meets-mount_one (failed + b) d v h.0) (elim [
        | ok _ ↦ Meets-exists _ λ between. Meets-given _ _ λ tried.
            Meets-mono _ (λ s g. record { failures = omega (arith, g.failures); tried = g.tried })
              (λ n s (log, (g, rest)). (log, (g, next v vs d between log tried rest)))
              (λ why s g. g) (Meets-mount_each vs failed b between h.1)
        | err e ↦ Meets-exists _ λ between. Meets-given _ _ λ tried.
            Meets-bind _ _
              (Meets-of_Keeps _ (Keeps-warn o (Standing-Quiet (1 + (failed + b)) between) _))
              λ _.
                Meets-mono _
                  (λ s g. record { failures = omega (arith, g.failures); tried = g.tried })
                  (λ n s (log, (g, rest)). (log, (g, next v vs d between log tried rest)))
                  (λ why s g. g) (Meets-mount_each vs (failed + 1) b between h.1)
      ])

  -- Whatever the kernel answers, mount_all tries all filesystems of the table one after the other,
  -- in the table's order: it makes the mount point ready and, where this works, calls mount with
  -- the entry's source, mount point, type, flags and options, and makes no other mount or mount
  -- point. Its result is the number of setbacks that it met, a mount point or a mount that failed,
  -- where a filesystem that is mounted already (EBUSY) is none; it returns unless a call does not.
  pub mount_all_counts :
      (b : ℕ) (d : List Event)
      → Meets (Standing b d) (mount_all o) (AllTried (table o) b d) NeverCut
  unfolding mount_all
  mount_all_counts b d =
      Meets-mono _ (λ s g. record { failures = omega (arith, g.failures); tried = g.tried })
        (λ _ s g. g) (λ why s g. g) (Meets-mount_each (table o) 0 b d (table-IsPlain o))
