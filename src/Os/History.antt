-- ===== src/Os/History.antt =====
-- What a run adds to the calls before it.
use zevory_linux.Prelude.{ℕ, ◌+◌, ◌≡◌, refl, sym, ap, ◌∙◌, List, [], ◌∷◌, ◌++◌, append_assoc}
use zevory_linux.Os.{Call, Event}

-- A later trace: some more calls on top of the `earlier` ones.
abbrev pub Extends : List Event → List Event → Type 0
Extends earlier later = (more : List Event) × (later ≡ more ++ earlier)

pub Extends-refl : (t : List Event) → Extends t t
Extends-refl t = ([], refl)

pub Extends-call :
    (earlier later : List Event) (e : Event) → Extends earlier later → Extends earlier (e ∷ later)
Extends-call earlier later e (more, same) = (e ∷ more, ap (λ t. e ∷ t) same)

pub Extends-trans : (a b c : List Event) → Extends a b → Extends b c → Extends a c
Extends-trans a b c (m, p) (n, q) = (n ++ m, q ∙ ap (λ t. n ++ t) p ∙ sym (append_assoc n m a))

abbrev and_fork : Call → ℕ → ℕ
and_fork Call.fork n = 1 + n
and_fork _ n = n

-- How often `fork` was called
abbrev pub forks : List Event → ℕ
forks [] = 0
forks (e ∷ t) = and_fork e.made (forks t)
