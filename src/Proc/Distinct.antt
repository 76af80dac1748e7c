-- ===== src/Proc/Distinct.antt =====
-- The operations of the table keep the pids of live children distinct.
use zevory_linux.Prelude.{
  ℕ, ◌≡◌, refl, ◌⊎◌, inl, inr, Bool-cases, Option-cases, [], ◌∷◌, ◌++◌, Bool, false, none, some, ℤ,
  ◌==ℤ◌, ==ℤ_iff, keep, arith,
}
use zevory_linux.Os.{Text}
use zevory_linux.Proc.{Table, Entry, State, is_running, is_live, finish, forget_finished, tracked}
use zevory_linux.Proc.Entries.{find_live, find_live-forget, Distinct}

finish_cases :
    (pid : ℤ) (state : State) (x : Entry) (t t' : Table) (e : Entry)
    → finish pid state (x ∷ t) ≡ some (e, t')
    → (t' ≡ record x { state = state } ∷ t)
      ⊎ ((u : Table) × (finish pid state t ≡ some (e, u)) × (t' ≡ x ∷ u))
unfolding finish
finish_cases pid state x t t' e done = elim (Bool-cases (is_live pid x)) [
  | inl hit ↦ inl (ground arith)
  | inr miss ↦ elim (Option-cases (finish pid state t)) [
    | inl nothing ↦ absurd (ground arith)
    | inr ((f, u), found) ↦ inr (u, ground arith, ground arith)
  ]
]

find_live-finish-none :
    (q pid : ℤ) (state : State) (t t' : Table) (e : Entry)
    → is_running state ≡ false
    → finish pid state t ≡ some (e, t')
    → find_live q t ≡ none
    → find_live q t' ≡ none
unfolding find_live finish is_live
find_live-finish-none q pid state [] t' e dead done h = cc
find_live-finish-none q pid state (x ∷ t) t' e dead done h =
    elim (finish_cases pid state x t t' e done) [
      | inl hit ↦ rw hit (ground arith)
      | inr (u, found, miss) ↦
          rw miss (ground (arith, find_live-finish-none q pid state t u e dead found))
    ]

pub finish-Distinct :
    (pid : ℤ) (state : State) (t t' : Table) (e : Entry)
    → is_running state ≡ false
    → finish pid state t ≡ some (e, t')
    → Distinct t
    → Distinct t'
unfolding finish
finish-Distinct pid state [] t' e dead done d = cc
finish-Distinct pid state (x ∷ t) t' e dead done d = elim (finish_cases pid state x t t' e done) [
  | inl hit ↦ rw hit (ground arith)
  | inr (u, found, miss) ↦ rw miss (
    (λ live. find_live-finish-none x.pid pid state t u e dead found (d.0 live)),
    finish-Distinct pid state t u e dead found d.1,
  )
]

pub forget_finished-Distinct : (t : Table) → Distinct t → Distinct (forget_finished t)
unfolding forget_finished keep
forget_finished-Distinct [] d = tt
forget_finished-Distinct (x ∷ t) d =
    ground (arith, forget_finished-Distinct t, find_live-forget x.pid t)

find_live-tracked :
    (q pid : ℤ) (name : Text) (owns : Bool) (now : ℕ) (t : Table)
    → find_live q t ≡ none
    → (q ==ℤ pid) ≡ false
    → find_live q (t ++ tracked name pid owns now ∷ []) ≡ none
unfolding find_live tracked is_live is_running
find_live-tracked q pid name owns now [] h ne = ground (arith, ==ℤ_iff q pid, ==ℤ_iff pid q)
find_live-tracked q pid name owns now (x ∷ t) h ne =
    ground (arith, find_live-tracked q pid name owns now t)

pub tracked-Distinct :
    (pid : ℤ) (name : Text) (owns : Bool) (now : ℕ) (t : Table)
    → find_live pid t ≡ none
    → Distinct t
    → Distinct (t ++ tracked name pid owns now ∷ [])
unfolding find_live is_live
tracked-Distinct pid name owns now [] h d = ((λ _. refl), tt)
tracked-Distinct pid name owns now (x ∷ t) h d = ground (
  arith,
  find_live-tracked x.pid pid name owns now t,
  ==ℤ_iff x.pid pid,
  tracked-Distinct pid name owns now t,
)
