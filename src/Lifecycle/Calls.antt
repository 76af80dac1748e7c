-- ===== src/Lifecycle/Calls.antt =====
-- The rule for one call, and the wrappers of sys.rs that are allowed in every phase.
use zevory_linux.Prelude.{◌≡◌, refl, Option, some}
use zevory_linux.Os.{Call, Reply, Os, out_of_fuel, M, pure, stop, ◌>>=◌, call}
use zevory_linux.Os.Rules.{Meets-bind, Meets-pure, Keeps, Meets, Meets-call, Keeps-of_Meets}
use zevory_linux.Lifecycle.{Phase, turn, Allowed, In, Ended}

module _ (o : Os) (p : Phase) where
  -- `m` stays in the phase, makes allowed calls only, and stops well.
  abbrev pub Stays : {A : Type 0} → M A → Type 0
  Stays m = Keeps (In o p) (Ended o) m

  pub Stays-call :
      (c : Call) → ((r : Option Reply) → turn o p c r ≡ p) → Allowed o p c → Stays (call o c)
  Stays-call c quiet may = Keeps-of_Meets (call o c) (
      Meets-call o c (λ s h. record { orderly = (rw h.here may, h.orderly); well = tt })
        (λ s r h e. record {
          orderly = (rw h.here may, h.orderly);
          here = rw h.here (quiet (some r));
        }))

  pub Stays-out_of_fuel : {A : Type 0} → Stays (stop {A = A} out_of_fuel)
  unfolding stop
  Stays-out_of_fuel = record { at = λ s h. record { orderly = h.orderly; well = tt } }

-- A call that may move the life on to another phase, by its reply.
module _ (o : Os) (p : Phase) where
  pub Moves-call :
      (c : Call)
      → Allowed o p c
      → Meets (In o p) (call o c) (λ r. In o (turn o p c (some r))) (Ended o)
  Moves-call c may =
      Meets-call o c (λ s h. record { orderly = (rw h.here may, h.orderly); well = tt })
        (λ s r h e. record { orderly = (rw h.here may, h.orderly); here = rw h.here refl })

  pub Moves-call_then :
      {A : Type 0} (c : Call) (f : Reply → A) (after : A → Phase)
      → Allowed o p c
      → ((r : Reply) → turn o p c (some r) ≡ after (f r))
      → Meets (In o p) (call o c >>= λ r. pure (f r)) (λ a. In o (after a)) (Ended o)
  Moves-call_then c f after may e =
      Meets-bind _ _ (Moves-call c may) λ r. Meets-pure (f r) (λ s h. rw (← e r) h)
