-- ===== src/Lifecycle/Sanction.antt =====
-- Orderly calls in plain words: what must have happened before a call.
use zevory_linux.Prelude.{
  ℕ, ◌≡◌, refl, ◌⊎◌, inl, inr, List, [], ◌∷◌, Option, none, some, ℤ, pos, ◌==ℤ◌, ==ℤ_iff, arith,
  Bool-cases,
}
use zevory_linux.Os.{Call, Reply, Event, Os}
use zevory_linux.Signal.{Request, child_changed, reload, shutdown, unknown, classify}
use zevory_linux.Power.Actions.{Action, kernel_command}
use zevory_linux.Main.{main}
use zevory_linux.Lifecycle.{
  Allowed, MayKill, OnlyChild, MayReboot, Phase, up, child, down, flushed, asked, turn, phase,
  Orderly,
}
use zevory_linux.Lifecycle.Whole.{boot, main-Orderly}

-- A whole signal was read, and it asks for `a`.
pub record Asks (o : Os) (a : Action) (c : Call) (reply : Option Reply) : Type 0 where
  pub fd : ℤ
  pub size : ℕ
  pub answer : Reply
  pub is_read : c ≡ Call.read fd size
  pub answered : reply ≡ some answer
  pub whole : answer.rc ≡ pos o.siginfo_size
  pub asks : classify o answer.out ≡ shutdown a

abbrev pub AskedFor : Os → Action → List Event → Type 0
AskedFor o a [] = ⊥
AskedFor o a (e ∷ t) = Asks o a e.made e.reply ⊎ AskedFor o a t

-- The filesystems were flushed, after a signal was read that asks for `a`.
abbrev pub FlushedFor : Os → Action → List Event → Type 0
FlushedFor o a [] = ⊥
FlushedFor o a (e ∷ t) = ((e.made ≡ Call.sync) × AskedFor o a t) ⊎ FlushedFor o a t

module _ (o : Os) (a : Action) where
  asked_down : (q : Request) → asked o q ≡ down a → q ≡ shutdown a
  asked_down (shutdown b) h = ground arith
  asked_down child_changed h = cc
  asked_down reload h = cc
  asked_down (unknown s) h = cc

  asked_flushed : (q : Request) → asked o q ≡ flushed a → ⊥
  asked_flushed (shutdown b) h = cc
  asked_flushed child_changed h = cc
  asked_flushed reload h = cc
  asked_flushed (unknown s) h = cc

  heard_flushed : (r : Reply) → turn o up (Call.read (pos 0) 0) (some r) ≡ flushed a → ⊥
  heard_flushed r h = elim (Bool-cases (r.rc ==ℤ pos o.siginfo_size)) [
    | inl whole ↦ asked_flushed (classify o r.out) (ground arith)
    | inr short ↦ ground arith
  ]

  turn_flushed :
      (p : Phase) (c : Call) (r : Option Reply)
      → turn o p c r ≡ flushed a
      → (p ≡ flushed a) ⊎ ((c ≡ Call.sync) × (p ≡ down a))
  turn_flushed up (Call.read fd n) (some r) h = absurd (heard_flushed r h)
  turn_flushed child (Call.read fd n) (some r) h = inl h
  turn_flushed (down b) (Call.read fd n) (some r) h = inl h
  turn_flushed (flushed b) (Call.read fd n) (some r) h = inl h
  turn_flushed p (Call.read fd n) none h = inl h
  turn_flushed p Call.fork (some r) h = ground arith
  turn_flushed p Call.fork none h = inl h
  turn_flushed p Call.sync (some r) h = ground arith
  turn_flushed p Call.sync none h = inl h
  turn_flushed p _ r h = inl h

  turn_down :
      (p : Phase) (c : Call) (r : Option Reply)
      → turn o p c r ≡ down a
      → (p ≡ down a) ⊎ Asks o a c r
  turn_down up (Call.read fd n) (some r) h = elim (Bool-cases (r.rc ==ℤ pos o.siginfo_size)) [
    | inl whole ↦ inr (record {
      fd = fd;
      size = n;
      answer = r;
      is_read = refl;
      answered = refl;
      whole = (==ℤ_iff r.rc (pos o.siginfo_size)).0 whole;
      asks = asked_down (classify o r.out) (ground arith);
    })
    | inr short ↦ absurd (ground arith)
  ]
  turn_down child (Call.read fd n) (some r) h = inl h
  turn_down (down b) (Call.read fd n) (some r) h = inl h
  turn_down (flushed b) (Call.read fd n) (some r) h = inl h
  turn_down p (Call.read fd n) none h = inl h
  turn_down p Call.fork (some r) h = inl (ground arith)
  turn_down p Call.fork none h = inl h
  turn_down p Call.sync (some r) h = inl (ground arith)
  turn_down p Call.sync none h = inl h
  turn_down p _ r h = inl h

  AskedFor-by_then : (t : List Event) → phase o t ≡ down a → AskedFor o a t
  AskedFor-by_then [] h = cc
  AskedFor-by_then (e ∷ t) h = elim (turn_down (phase o t) e.made e.reply h) [
    | inl before ↦ inr (AskedFor-by_then t before)
    | inr now ↦ inl now
  ]

  FlushedFor-by_then : (t : List Event) → phase o t ≡ flushed a → FlushedFor o a t
  FlushedFor-by_then [] h = cc
  FlushedFor-by_then (e ∷ t) h = elim (turn_flushed (phase o t) e.made e.reply h) [
    | inl before ↦ inr (FlushedFor-by_then t before)
    | inr (now, before) ↦ inl (now, AskedFor-by_then t before)
  ]

abbrev pub Forked : List Event → Type 0
Forked [] = ⊥
Forked (e ∷ t) =
    ((e.made ≡ Call.fork) × ((r : Reply) × (e.reply ≡ some r) × (r.rc ≡ pos 0))) ⊎ Forked t

module _ (o : Os) where
  asked_child : (q : Request) → asked o q ≡ child → ⊥
  asked_child (shutdown b) h = cc
  asked_child child_changed h = cc
  asked_child reload h = cc
  asked_child (unknown s) h = cc

  turn_child :
      (p : Phase) (c : Call) (r : Option Reply)
      → turn o p c r ≡ child
      → (p ≡ child) ⊎ ((c ≡ Call.fork) × ((q : Reply) × (r ≡ some q) × (q.rc ≡ pos 0)))
  turn_child up (Call.read fd n) (some r) h = elim (Bool-cases (r.rc ==ℤ pos o.siginfo_size)) [
    | inl whole ↦ absurd (asked_child (classify o r.out) (ground arith))
    | inr short ↦ absurd (ground arith)
  ]
  turn_child child (Call.read fd n) (some r) h = inl h
  turn_child (down b) (Call.read fd n) (some r) h = inl h
  turn_child (flushed b) (Call.read fd n) (some r) h = inl h
  turn_child p (Call.read fd n) none h = inl h
  turn_child up Call.fork (some r) h = inr (refl, (r, refl, ground (arith, ==ℤ_iff r.rc (pos 0))))
  turn_child child Call.fork (some r) h = inl h
  turn_child (down b) Call.fork (some r) h = inl h
  turn_child (flushed b) Call.fork (some r) h = inl h
  turn_child p Call.fork none h = inl h
  turn_child p Call.sync (some r) h = inl (ground arith)
  turn_child p Call.sync none h = inl h
  turn_child p _ r h = inl h

  Forked-by_then : (t : List Event) → phase o t ≡ child → Forked t
  Forked-by_then [] h = cc
  Forked-by_then (e ∷ t) h = elim (turn_child (phase o t) e.made e.reply h) [
    | inl before ↦ inr (Forked-by_then t before)
    | inr now ↦ inl now
  ]

  -- What must have been called before a call.
  abbrev Needs : Call → List Event → Type 0
  Needs (Call.kill pid sig) older = (a : Action) × AskedFor o a older
  Needs (Call.execv path argv) older = Forked older
  Needs (Call.reboot c) older =
      ((c ≡ o.rb_disable_cad) ⊎ (c ≡ o.rb_enable_cad))
      ⊎ ((a : Action) × (c ≡ kernel_command o a) × FlushedFor o a older)
  Needs _ older = Unit

  abbrev pub Sanctioned : List Event → Type 0
  Sanctioned [] = Unit
  Sanctioned (e ∷ older) = Needs e.made older × Sanctioned older

  kill-Needs :
      (p : Phase) (older : List Event) (pid sig : ℤ)
      → phase o older ≡ p
      → MayKill o pid sig p
      → (a : Action) × AskedFor o a older
  kill-Needs up older pid sig e h = absurd h
  kill-Needs child older pid sig e h = absurd h
  kill-Needs (down a) older pid sig e h = (a, AskedFor-by_then o a older e)
  kill-Needs (flushed a) older pid sig e h = absurd h

  execv-Needs : (p : Phase) (older : List Event) → phase o older ≡ p → OnlyChild o p → Forked older
  execv-Needs up older e h = absurd h
  execv-Needs child older e h = Forked-by_then older e
  execv-Needs (down a) older e h = absurd h
  execv-Needs (flushed a) older e h = absurd h

  reboot-Needs :
      (p : Phase) (older : List Event) (c : ℤ)
      → phase o older ≡ p
      → MayReboot o c p
      → Needs (Call.reboot c) older
  reboot-Needs up older c e h = inl h
  reboot-Needs child older c e h = absurd h
  reboot-Needs (down a) older c e h = absurd h
  reboot-Needs (flushed a) older c e (inl h) = inr (a, h, FlushedFor-by_then o a older e)
  reboot-Needs (flushed a) older c e (inr h) = inl (inr h)

  Allowed-Needs : (c : Call) (older : List Event) → Allowed o (phase o older) c → Needs c older
  Allowed-Needs (Call.kill pid sig) older h = kill-Needs (phase o older) older pid sig refl h
  Allowed-Needs (Call.execv path argv) older h = execv-Needs (phase o older) older refl h
  Allowed-Needs (Call.reboot c) older h = reboot-Needs (phase o older) older c refl h
  Allowed-Needs _ older h = tt

  Orderly-Sanctioned : (t : List Event) → Orderly o t → Sanctioned t
  Orderly-Sanctioned [] h = tt
  Orderly-Sanctioned (e ∷ t) h = (Allowed-Needs e.made t h.0, Orderly-Sanctioned t h.1)

-- Whatever the kernel answers and for any fuel, where getpid answers 1: before each reboot that
-- main calls, other than one that only says who has Ctrl+Alt+Del, a signal was read that asks for
-- the action whose command it is, and after that the filesystems were flushed; before each kill, a
-- signal was read that asks for some action; and before each execv, a fork answered 0.
pub main-Sanctioned :
    (o : Os) (fuel : ℕ) (r : Reply)
    → o.answer [] Call.getpid ≡ some r
    → r.rc ≡ pos 1
    → Sanctioned o (main o fuel boot).1.trace
main-Sanctioned o fuel r answers first =
    Orderly-Sanctioned o _ (main-Orderly o fuel r answers first)
