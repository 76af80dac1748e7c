-- ===== src/Signal/Refinement.antt =====
-- `reap_all` refines the plain account of what `waitpid` said: the table is the one that the exits
-- lead to, and a life is reported exactly where one of them was a known child.
use zevory_linux.Prelude.{
  ℕ, zero, suc, ◌≡◌, refl, ◌∙◌, ap, List, [], ◌∷◌, ◌++◌, ◌||◌, Option, none, some, ℤ, is_positive,
  if◌then◌else◌, arith, Bool, true, false, pos, negsuc, is_negative, ◌⊎◌, inl, inr, Bool-cases,
  ◌==ℤ◌, ==ℤ_iff,
}
use zevory_linux.Os.{Event, Call, Reply, Os, Process, Stop, out_of_fuel, event}
use zevory_linux.Os.Rules.{
  Meets, Meets-mono, Keeps-of_Meets, Meets-pure, Meets-bind, Meets-call, Meets-stop, Meets-given,
}
use zevory_linux.Sys.{Reaped, reaped_child, still_running, no_children_left, reaped_of, reap_one}
use zevory_linux.Log.Quiet.{IsOutput, Quiet}
use zevory_linux.Proc.{Table, forget_finished}
use zevory_linux.Signal.{reap_from, reap_all}
use zevory_linux.Signal.Reaping.{
  reaps, after_exit, after_exits, is_known, any_known, is_some, Meets-bury,
}

-- A run may stop in any way.
abbrev pub AnyStop : Stop → Process → Type 0
AnyStop why s = Unit

abbrev ReapedSoFar : List (ℤ × ℤ) → Process → Type 0
ReapedSoFar l s = reaps s.trace ≡ l

module _ (o : Os) where
  pub output_reaps :
      (c : Call) (r : Option Reply) (s : Process)
      → IsOutput c
      → reaps (event c r ∷ s.trace) ≡ reaps s.trace
  output_reaps (Call.write fd text) r s _ = refl
  output_reaps (Call.open_file path flags) r s _ = refl
  output_reaps (Call.write_file path text) r s _ = refl
  output_reaps (Call.clock_gettime id) r s _ = refl
  output_reaps _ r s none_such = absurd none_such

  Reaps-Quiet : (l : List (ℤ × ℤ)) → Quiet o (ReapedSoFar l) AnyStop
  Reaps-Quiet l = record {
    on_call = λ c is.
        Keeps-of_Meets _ (Meets-call o c (λ s h. tt) (λ s r h e. output_reaps c (some r) s is ∙ h));
    on_kmsg = λ s fd h. h;
  }

  abbrev pub reaped_list : Reaped → List (ℤ × ℤ)
  reaped_list (reaped_child pid status) = (pid, status) ∷ []
  reaped_list still_running = []
  reaped_list no_children_left = []

  -- A reply of `waitpid` with no dead child in it: others are left, or there are none at all.
  abbrev pub NoMore : Bool → Reply → Type 0
  NoMore true r = (is_positive r.rc ≡ false) × ((r.rc ≡ pos 0) ⊎ ¬ (r.errno ≡ o.echild))
  NoMore false r = (is_negative r.rc ≡ true) × (r.errno ≡ o.echild)

  -- The newest call is a `waitpid` with such a reply.
  abbrev pub WaitedOut : Bool → List Event → Type 0
  WaitedOut left [] = ⊥
  WaitedOut left (e ∷ t) =
      (e.made ≡ Call.waitpid (negsuc 0) o.wnohang)
      × ((r : Reply) × (e.reply ≡ some r) × NoMore left r)

  abbrev pub Says : Reaped → Reply → Type 0
  Says (reaped_child pid status) r = Unit
  Says still_running r = NoMore true r
  Says no_children_left r = NoMore false r

  pub reaped_of-Says : (r : Reply) → Says (reaped_of o r) r
  unfolding reaped_of is_positive is_negative ◌==ℤ◌
  reaped_of-Says r = go r.rc r.errno r.out
    where
      go :
          (rc errno out : ℤ)
          → Says
              (reaped_of o (record { rc = rc; errno = errno; out = out }))
              (record { rc = rc; errno = errno; out = out })
      go (pos zero) errno out = (refl, inl refl)
      go (pos (suc n)) errno out = tt
      go (negsuc n) errno out = elim (Bool-cases (errno ==ℤ o.echild)) [
        | inl none_left ↦ rw none_left (refl, (==ℤ_iff errno o.echild).0 none_left)
        | inr other ↦ rw other (refl, inr λ e. cc ((==ℤ_iff errno o.echild).1 e))
      ]

  abbrev SaysNow : Reaped → List Event → Type 0
  SaysNow (reaped_child pid status) t = Unit
  SaysNow still_running t = WaitedOut true t
  SaysNow no_children_left t = WaitedOut false t

  Says-now :
      (q : Reaped) (t : List Event) (r : Reply)
      → Says q r
      → SaysNow q (event (Call.waitpid (negsuc 0) o.wnohang) (some r) ∷ t)
  Says-now (reaped_child pid status) t r h = tt
  Says-now still_running t r h = (refl, (r, refl, h))
  Says-now no_children_left t r h = (refl, (r, refl, h))

  Meets-reap_one :
      (l : List (ℤ × ℤ))
      → Meets
          (ReapedSoFar l)
          (reap_one o)
          (λ r s. ReapedSoFar (reaped_list r ++ l) s × SaysNow r s.trace)
          AnyStop
  unfolding reap_one reaped_of
  Meets-reap_one l =
      Meets-bind
        {R = λ r s.
          ReapedSoFar ((if is_positive r.rc then (r.rc, r.out) ∷ [] else []) ++ l) s
          × SaysNow (reaped_of o r) s.trace}
        _ _
        (Meets-call o _ (λ s h. tt)
          (λ s r h e. (ap (◌++◌ _) h, Says-now (reaped_of o r) s.trace r (reaped_of-Says r))))
        λ r. Meets-pure _ (λ s h. (h.0 ∙ ap (λ k. k ++ l) (same r), h.1))
    where
      same :
          (r : Reply)
          → (if is_positive r.rc then (r.rc, r.out) ∷ [] else []) ≡ reaped_list (reaped_of o r)
      same r = ground arith

-- What is known in the loop: which exits there were since `base`, and where they led.
abbrev Told : Os → Table → List (ℤ × ℤ) → Table → Option ℕ → Process → Type 0
Told o t₀ base t shortest s =
    (exits : List (ℤ × ℤ)) × (reaps s.trace ≡ exits ++ base)
    × (t ≡ after_exits o t₀ exits)
    × (is_some shortest ≡ any_known o t₀ exits)

module _ (o : Os) (t₀ : Table) (base : List (ℤ × ℤ)) where
  Meets-reap_from :
      (fuel : ℕ) (exits : List (ℤ × ℤ)) (shortest : Option ℕ) (t : Table)
      → t ≡ after_exits o t₀ exits
      → is_some shortest ≡ any_known o t₀ exits
      → Meets
          (ReapedSoFar (exits ++ base))
          (reap_from o fuel t shortest)
          (λ r s. Told o t₀ base r.1 r.2 s × WaitedOut o r.0 s.trace)
          AnyStop
  unfolding reap_from
  Meets-reap_from zero exits shortest t e k = Meets-stop out_of_fuel (λ s h. tt)
  Meets-reap_from (suc fuel) exits shortest t e k = Meets-bind _ _ (Meets-reap_one o _) (elim [
    | still_running ↦ Meets-pure _ (λ s h. ((exits, h.0, e, k), h.1))
    | no_children_left ↦ Meets-pure _ (λ s h. ((exits, h.0, e, k), h.1))
    | reaped_child pid status ↦
        Meets-bind _ _
          (Meets-mono _ (λ s h. h.0) (λ b s h. h) (λ why s h. h)
            (Meets-bury o (Reaps-Quiet o _) t shortest pid status))
          λ b. Meets-given _ _ λ facts.
            Meets-reap_from fuel ((pid, status) ∷ exits) b.1 b.0
              (facts.0 ∙ ap (λ u. after_exit o u (pid, status)) e)
              (facts.1
                ∙ ap (λ u. is_known o u (pid, status) || is_some shortest) e
                ∙ ap (λ b. is_known o (after_exits o t₀ exits) (pid, status) || b) k)
  ])

-- Whatever the kernel answers, where reap_all returns, its last call is a waitpid that gives no
-- child: one that fails with ECHILD where it reports that no children are left, and another one
-- where it reports that some are. The children that waitpid gave before are taken, all and only
-- those: the table is the live part of what these exits, in their order, make of the table it was
-- given, and it reports a shortest life exactly where one of them was a child of the table.
pub reap_all_lem :
    (o : Os) (fuel : ℕ) (t : Table) (base : List (ℤ × ℤ))
    → Meets
        (λ s. reaps s.trace ≡ base)
        (reap_all o fuel t)
        (λ r s.
          (exits : List (ℤ × ℤ)) × (reaps s.trace ≡ exits ++ base)
          × (r.1 ≡ forget_finished (after_exits o t exits))
          × (is_some r.0.shortest_life ≡ any_known o t exits)
          × WaitedOut o r.0.children_left s.trace)
        AnyStop
unfolding reap_all
reap_all_lem o fuel t base =
    Meets-bind _ _ (Meets-reap_from o t base fuel [] none t refl refl)
      λ r. Meets-pure _ (λ s h. (h.0.0, h.0.1, ap forget_finished h.0.2, h.0.3, h.1))
