-- ===== src/Proc/Live.antt =====
-- The table refines a finite map from pids to live children: a client that looks children up by
-- pid sees the updates of a function.
use zevory_linux.Prelude.{
  ℕ, ◌≡◌, refl, sym, ap, ◌∙◌, List, [], ◌∷◌, ◌++◌, Bool, Option, none, some, ℤ, ◌==ℤ◌, ==ℤ_iff,
  if◌then◌else◌, arith, inl, inr, Bool-cases, subst,
}
use mathlib.Core.Path.{fun_ext}
use zevory_linux.Os.{Text, Os}
use zevory_linux.Proc.{
  Table, Entry, is_running, is_live, finish, forget_finished, tracked, state_from,
}
use zevory_linux.Proc.Entries.{
  find_live-bury_self, find_live-bury_other, find_live, find_live-forget, Distinct, finish_lem,
  state_from-not_running, bury_first,
}
use zevory_linux.Proc.Distinct.{finish-Distinct, forget_finished-Distinct, tracked-Distinct}

-- What the callers of the table do to it: `record_exit`, `forget_finished` and `track`.
pub data Op : Type 0 where
  exit : ℤ → ℤ → Op
  forget : Op
  start : Text → ℤ → Bool → ℕ → Op

abbrev pub Live : Type 0
Live = ℤ → Option Entry

-- A function, changed at one pid
abbrev pub update : Live → ℤ → Option Entry → Live
update f pid e q = if q ==ℤ pid then e else f q

module _ (o : Os) where
  abbrev recorded : Table → ℤ → ℤ → Table
  recorded t pid status = elim (finish pid (state_from o status) t) [ none ↦ t | some (e, t') ↦ t' ]

  unfoldable pub run : List Op → Table → Table
  run [] t = t
  run (exit pid status ∷ ops) t = run ops (recorded t pid status)
  run (forget ∷ ops) t = run ops (forget_finished t)
  run (start name pid owns now ∷ ops) t = run ops (t ++ tracked name pid owns now ∷ [])

-- The same, on a function
abbrev pub replay : List Op → Live → Live
replay [] f = f
replay (exit pid status ∷ ops) f = replay ops (update f pid none)
replay (forget ∷ ops) f = replay ops f
replay (start name pid owns now ∷ ops) f =
    replay ops (update f pid (some (tracked name pid owns now)))

-- The kernel gives a new child no pid that a live child has.
abbrev pub Fresh : List Op → Live → Type 0
Fresh [] f = Unit
Fresh (exit pid status ∷ ops) f = Fresh ops (update f pid none)
Fresh (forget ∷ ops) f = Fresh ops f
Fresh (start name pid owns now ∷ ops) f =
    (f pid ≡ none) × Fresh ops (update f pid (some (tracked name pid owns now)))

abbrev pub live : Table → Live
live t pid = find_live pid t

find_live-start :
    (name : Text) (pid : ℤ) (owns : Bool) (now : ℕ) (t : Table) (q : ℤ)
    → find_live pid t ≡ none
    → find_live q (t ++ tracked name pid owns now ∷ [])
      ≡ (if q ==ℤ pid then some (tracked name pid owns now) else find_live q t)
unfolding find_live tracked is_live is_running
find_live-start name pid owns now [] q h = ground (arith, ==ℤ_iff q pid, ==ℤ_iff pid q)
find_live-start name pid owns now (e ∷ t) q h = ground (
  arith,
  find_live-start name pid owns now t q,
  ==ℤ_iff q pid,
  ==ℤ_iff e.pid q,
  ==ℤ_iff e.pid pid,
)

module _ (o : Os) (pid status : ℤ) (t : Table) (d : Distinct t) where
  find_live-recorded : (q : ℤ) → live (recorded o t pid status) q ≡ update (live t) pid none q
  find_live-recorded q =
      elim (finish_lem pid (state_from o status) (state_from-not_running o status) t) [
        | inl (absent, nothing) ↦ rw (nothing, recorded) (ground (arith, ==ℤ_iff q pid, absent))
        | inr (e, t', found, taken, left, fewer) ↦
            rw (taken, recorded)
              (elim (Bool-cases (q ==ℤ pid)) [
                | inl same ↦
                    let here = (==ℤ_iff q pid).0 same in
                    rw (same, here) (view t' left pid ∙ find_live-bury_self pid t d)
                | inr other ↦ rw other (
                    view t' left q
                    ∙ find_live-bury_other pid q t (λ here. cc ((==ℤ_iff q pid).1 here)))
              ])
      ]
    where
      view :
          (t' : Table)
          → forget_finished t' ≡ forget_finished (bury_first pid t)
          → (q' : ℤ) → find_live q' t' ≡ find_live q' (bury_first pid t)
      view t' left q' =
          sym (find_live-forget q' t')
          ∙ ap (find_live q') left
          ∙ find_live-forget q' (bury_first pid t)

  recorded-Distinct : Distinct (recorded o t pid status)
  recorded-Distinct =
      elim (finish_lem pid (state_from o status) (state_from-not_running o status) t) [
        | inl (absent, nothing) ↦ rw (nothing, recorded) d
        | inr (e, t', found, taken, left, fewer) ↦
            rw (taken, recorded)
              (finish-Distinct pid (state_from o status) t t' e (state_from-not_running o status)
                taken d)
      ]

-- For any sequence of exits, forgetting and starts, where a new child's pid is none of a live
-- child, the table, looked up by pid for a live child, is what the same sequence makes of a
-- function from pids: an exit clears its pid, a start sets its pid, and forgetting changes
-- nothing; and the pids of live children stay distinct.
pub run_refines :
    (o : Os) (ops : List Op) (t : Table)
    → Distinct t
    → Fresh ops (live t)
    → Distinct (run o ops t) × (live (run o ops t) ≡ replay ops (live t))
unfolding run
run_refines o [] t d f = (d, refl)
run_refines o (exit pid status ∷ ops) t d f =
    let same : live (recorded o t pid status) ≡ update (live t) pid none =
      fun_ext (find_live-recorded o pid status t d) in
    let (d', e) =
      run_refines o ops (recorded o t pid status) (recorded-Distinct o pid status t d)
        (subst (Fresh ops) (sym same) f) in
    (d', e ∙ ap (replay ops) same)
run_refines o (forget ∷ ops) t d f =
    let same : live (forget_finished t) ≡ live t = fun_ext λ q. find_live-forget q t in
    let (d', e) =
      run_refines o ops (forget_finished t) (forget_finished-Distinct t d)
        (subst (Fresh ops) (sym same) f) in
    (d', e ∙ ap (replay ops) same)
run_refines o (start name pid owns now ∷ ops) t d f =
    let same : live (t ++ tracked name pid owns now ∷ [])
        ≡ update (live t) pid (some (tracked name pid owns now)) =
      fun_ext λ q. find_live-start name pid owns now t q f.0 in
    let (d', e) =
      run_refines o ops (t ++ tracked name pid owns now ∷ [])
        (tracked-Distinct pid name owns now t f.0 d) (subst (Fresh ops) (sym same) f.1) in
    (d', e ∙ ap (replay ops) same)
