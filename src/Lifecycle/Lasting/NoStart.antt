-- ===== src/Lifecycle/Lasting/NoStart.antt =====
-- That no child is started lasts through every call but `fork`.
use zevory_linux.Prelude.{◌≡◌, refl, ◌∙◌, List, ◌∷◌, Option, none, some}
use zevory_linux.Os.{Call, Reply, Event, event, Os}
use zevory_linux.Os.Rules.{Keeps-of_Meets, Meets-call}
use zevory_linux.Os.History.{Extends, Extends-call, forks}
use zevory_linux.Lifecycle.Lasting.{Lasting, IsNoFork}

-- Since `before`, no child was started.
abbrev pub NoStart : List Event → List Event → Type 0
NoStart before t = Extends before t × (forks t ≡ forks before)

module _ (o : Os) (before : List Event) where
  no_fork :
      (c : Call)
      → IsNoFork c
      → (r : Option Reply) (t : List Event) → forks (event c r ∷ t) ≡ forks t
  no_fork Call.fork other r t = absurd other
  no_fork _ other r t = refl

  pub NoStart-Lasting : Lasting o (λ s. NoStart before s.trace)
  NoStart-Lasting = record {
    on_call = λ c other. Keeps-of_Meets _ (
        Meets-call o c
          (λ s h.
            (Extends-call before s.trace (event c none) h.0, no_fork c other none s.trace ∙ h.1))
          (λ s r h e. (
            Extends-call before s.trace (event c (some r)) h.0,
            no_fork c other (some r) s.trace ∙ h.1,
          )));
    on_kmsg = λ s fd h. h;
  }
