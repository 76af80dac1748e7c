-- ===== src/Signal/Termination.antt =====
-- `reap_all` ends: a kernel that hands out finitely many dead children runs out of them.
use zevory_linux.Prelude.{
  [], none, ℕ, zero, suc, ◌+◌, ◌-◌, ◌≤◌, ◌<◌, ◌≡◌, refl, ap, List, ◌∷◌, Bool, true, Option, none,
  some, ℤ, negsuc, pos, not, false, ◌==ℤ◌, ◌||◌, is_positive, length, if◌then◌else◌, arith,
}
use zevory_linux.Os.{never_returned, Call, Reply, Event, Os, Process, Stop, event}
use zevory_linux.Os.Rules.{
  Meets, Keeps-of_Meets, Meets-pure, Meets-bind, Meets-call_as, Meets-given, Meets-mono,
}
use zevory_linux.Sys.{Reaped, reaped_child, still_running, no_children_left, reaped_of, reap_one}
use zevory_linux.Log.Quiet.{Quiet}
use zevory_linux.Proc.{Table}
use zevory_linux.Signal.{reap_from, reap_all}
use zevory_linux.Signal.Reaping.{reaps, Meets-bury}
use zevory_linux.Signal.Refinement.{output_reaps}

-- The kernel has `n` dead children to give at most: once `waitpid` has given that many, it gives no
-- more.
abbrev pub GivesAtMost : Os → ℕ → Type 0
GivesAtMost o n =
    (t : List Event) (r : Reply)
    → o.answer t (Call.waitpid (negsuc 0) o.wnohang) ≡ some r
    → is_positive r.rc ≡ true
    → length (reaps t) < n

abbrev pub Unanswered : Os → List Event → Type 0
Unanswered o [] = ⊥
Unanswered o (e ∷ t) = (e.reply ≡ none) × (o.answer t e.made ≡ none)

-- A run that stops only at a call that does not return: the newest one
abbrev pub NoAnswer : Os → Stop → Process → Type 0
NoAnswer o why s = (why ≡ never_returned) × Unanswered o s.trace

module _ (o : Os) (n : ℕ) (few : GivesAtMost o n) where
  -- `k` children at most are still to come.
  abbrev ToCome : ℕ → Process → Type 0
  ToCome k s = n ≤ length (reaps s.trace) + k

  ToCome-Quiet : (k : ℕ) → Quiet o (ToCome k) (NoAnswer o)
  ToCome-Quiet k = record {
    on_call = λ c is. Keeps-of_Meets _ (
        Meets-call_as o c (λ s h e. (refl, (refl, e)))
          (λ s r h e. omega (arith, ap (length {A = ℤ × ℤ}) (output_reaps o c (some r) s is))));
    on_kmsg = λ s fd h. h;
  }

  abbrev AfterOne : ℕ → Reaped → Process → Type 0
  AfterOne k (reaped_child pid status) s = ToCome (k - 1) s × (0 < k)
  AfterOne k still_running s = Unit
  AfterOne k no_children_left s = Unit

  AfterOne-if :
      (k : ℕ) (s : Process) (b : Bool) (x y : Reaped)
      → (b ≡ true → AfterOne k x s)
      → (b ≡ false → AfterOne k y s)
      → AfterOne k (if b then x else y) s
  AfterOne-if k s true x y hx hy = hx refl
  AfterOne-if k s false x y hx hy = hy refl

  positive_given :
      (r : Reply) (s : Process)
      → is_positive r.rc ≡ true
      → length (reaps (event (Call.waitpid (negsuc 0) o.wnohang) (some r) ∷ s.trace))
        ≡ suc (length (reaps s.trace))
  positive_given r s h = rw h

  Meets-reap_one : (k : ℕ) → Meets (ToCome k) (reap_one o) (AfterOne k) (NoAnswer o)
  unfolding reap_one reaped_of
  Meets-reap_one k =
      Meets-bind {R = λ r. AfterOne k (reaped_of o r)} _ _
        (Meets-call_as o _ (λ s h e. (refl, (refl, e)))
          (λ s r h e.
            AfterOne-if k _ (is_positive r.rc) _ _
              (λ some_child.
                let room : length (reaps s.trace) < n = few s.trace r e some_child in
                let more = positive_given r s some_child in
                (omega (arith, h, room, more), omega (arith, h, room)))
              (λ no_child.
                AfterOne-if k _ (r.rc ==ℤ pos 0 || not (r.errno ==ℤ o.echild)) _ _ (λ _. tt)
                  (λ _. tt))))
        λ r. Meets-pure _ (λ s h. h)

  Meets-reap_from :
      (fuel k : ℕ) (t : Table) (shortest : Option ℕ)
      → k < fuel
      → Meets (ToCome k) (reap_from o fuel t shortest) (λ _ _. Unit) (NoAnswer o)
  unfolding reap_from
  Meets-reap_from zero k t shortest h = elim h [ ]
  Meets-reap_from (suc fuel) k t shortest h = Meets-bind _ _ (Meets-reap_one k) (elim [
    | still_running ↦ Meets-pure _ (λ s h. tt)
    | no_children_left ↦ Meets-pure _ (λ s h. tt)
    | reaped_child pid status ↦ Meets-given (0 < k) _ λ more.
        Meets-bind _ _ (Meets-bury o (ToCome-Quiet (k - 1)) t shortest pid status) λ b.
          Meets-mono _ (λ s g. g.0) (λ _ s g. g) (λ why s g. g)
            (Meets-reap_from fuel (k - 1) b.0 b.1 (omega arith))
  ])

  -- Where the kernel has n dead children to give at most, any fuel above n is enough for reap_all:
  -- from whatever was called before, it returns or stops at a call that does not return.
  pub reap_all_ends :
      (fuel : ℕ) (t : Table)
      → n < fuel
      → Meets (λ _. Unit) (reap_all o fuel t) (λ _ _. Unit) (NoAnswer o)
  unfolding reap_all
  reap_all_ends fuel t h =
      Meets-bind _ _
        (Meets-mono _ (λ s g. omega arith) (λ _ s g. g) (λ why s g. g)
          (Meets-reap_from fuel n t none h))
        λ r. Meets-pure _ (λ s g. g)
