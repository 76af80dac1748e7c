-- ===== src/Proc/Entries.antt =====
-- The table of children as a map from live pids: what recording an exit does to it.
use zevory_linux.Prelude.{
  ◌+◌, ◌≡◌, refl, ◌≢◌, ◌∙◌, ◌⊎◌, inl, inr, [], ◌∷◌, true, false, Option, none, some, ap, sym, ℤ,
  ==ℤ_iff, keep, if◌then◌else◌, arith, Bool-cases,
}
use zevory_linux.Os.{Os}
use zevory_linux.Sys.{exit_code, termination_signal}
use zevory_linux.Proc.{
  Table, Entry, State, is_running, is_live, finish, forget_finished, running_count, state_from,
}

-- The live child with a pid, if there is one.
unfoldable pub find_live : ℤ → Table → Option Entry
find_live pid [] = none
find_live pid (e ∷ t) = if is_live pid e then some e else find_live pid t

-- No two live children have the same pid.
abbrev pub Distinct : Table → Type 0
Distinct [] = Unit
Distinct (e ∷ t) = (is_running e.state ≡ true → find_live e.pid t ≡ none) × Distinct t

-- A status never reads as a child that is still running.
pub state_from-not_running : (o : Os) (status : ℤ) → is_running (state_from o status) ≡ false
unfolding state_from is_running exit_code termination_signal
state_from-not_running o status = ground arith

-- The table without the child that is buried.
unfoldable pub bury_first : ℤ → Table → Table
bury_first pid [] = []
bury_first pid (e ∷ t) = if is_live pid e then t else e ∷ bury_first pid t

module _ (pid : ℤ) (state : State) (dead : is_running state ≡ false) where
  -- An exit is recorded exactly where a live child has the pid, for that child, and what is then
  -- left to live is the table without it.
  pub finish_lem :
      (t : Table)
      → ((find_live pid t ≡ none) × (finish pid state t ≡ none))
        ⊎ ((e : Entry) × (t' : Table) × (find_live pid t ≡ some e)
            × (finish pid state t ≡ some (e, t'))
            × (forget_finished t' ≡ forget_finished (bury_first pid t))
            × (running_count t' + 1 ≡ running_count t))
  unfolding find_live finish forget_finished running_count bury_first keep is_live
  finish_lem [] = inl (refl, refl)
  finish_lem (e ∷ t) = elim (Bool-cases (is_live pid e)) [
    | inl hit ↦
        inr (
          e,
          record e { state = state } ∷ t,
          ground arith,
          ground arith,
          ground arith,
          ground arith,
        )
    | inr miss ↦ elim (finish_lem t) [
      | inl (absent, nothing) ↦ inl (ground arith, ground arith)
      | inr (f, t', found, done, left, fewer) ↦
          inr (f, e ∷ t', ground arith, ground arith, ground arith, ground arith)
    ]
  ]

find_live-ne : (q pid : ℤ) (e : Entry) → q ≢ pid → is_live pid e ≡ true → is_live q e ≡ false
unfolding is_live
find_live-ne q pid e ne h = ground (arith, ==ℤ_iff e.pid pid, ==ℤ_iff e.pid q)

pub find_live-bury_other :
    (pid q : ℤ) (t : Table) → q ≢ pid → find_live q (bury_first pid t) ≡ find_live q t
unfolding find_live bury_first
find_live-bury_other pid q [] ne = refl
find_live-bury_other pid q (e ∷ t) ne =
    ground (arith, find_live-ne q pid e ne, find_live-bury_other pid q t ne)

pub find_live-bury_self :
    (pid : ℤ) (t : Table) → Distinct t → find_live pid (bury_first pid t) ≡ none
unfolding find_live bury_first is_live
find_live-bury_self pid [] d = refl
find_live-bury_self pid (e ∷ t) d = ground (arith, ==ℤ_iff e.pid pid, find_live-bury_self pid t d.1)

pub find_live-forget : (q : ℤ) (t : Table) → find_live q (forget_finished t) ≡ find_live q t
unfolding find_live forget_finished keep is_live
find_live-forget q [] = refl
find_live-forget q (e ∷ t) = ground (arith, find_live-forget q t)

-- The next recording for the same pid finds nothing, unless the pid is given out again.
pub finish-none :
    (pid : ℤ) (state : State) (t : Table) → find_live pid t ≡ none → finish pid state t ≡ none
unfolding find_live finish
finish-none pid state [] h = refl
finish-none pid state (e ∷ t) h = ground (arith, finish-none pid state t)

-- Where pids of live children are distinct, recording an exit with a state that is not running
-- takes the one child with the pid out of the running ones and leaves the live child of every
-- other pid as it was, and the same pid cannot be recorded again.
pub finish_once :
    (pid q : ℤ) (state state' : State) (t t' : Table) (e : Entry)
    → Distinct t
    → is_running state ≡ false
    → finish pid state t ≡ some (e, t')
    → q ≢ pid
    → (find_live pid t ≡ some e)
      × (running_count t' + 1 ≡ running_count t)
      × (find_live q t' ≡ find_live q t)
      × (finish pid state' t' ≡ none)
finish_once pid q state state' t t' e d dead done ne = elim (finish_lem pid state dead t) [
  | inl (absent, nothing) ↦ cc
  | inr (f, u, found, same, left, fewer) ↦
      let here : f ≡ e = ground arith in
      let there : u ≡ t' = ground arith in
      let view = λ (q' : ℤ).
        sym (find_live-forget q' t')
        ∙ ap (find_live q') (ap forget_finished (sym there) ∙ left)
        ∙ find_live-forget q' (bury_first pid t) in
      (
        rw (← here) found,
        rw (← there) fewer,
        view q ∙ find_live-bury_other pid q t ne,
        finish-none pid state' t' (view pid ∙ find_live-bury_self pid t d),
      )
]
