-- ===== src/Lifecycle.antt =====
-- The life of pid 1 as an automaton over its calls: which phase the calls so far have led to, and
-- what may be called in it. It is stated from the README's description, not from the code.
pub mod Calls
pub mod Logging
pub mod Setup
pub mod Children
pub mod Shutdown
pub mod Supervision
pub mod Whole
pub mod Sanction
pub mod Lasting
pub mod Watched
use zevory_linux.Prelude.{
  ◌≡◌, ◌⊎◌, List, [], ◌∷◌, Option, some, ℤ, pos, negsuc, ◌==ℤ◌, if◌then◌else◌,
}
use zevory_linux.Os.{Call, Reply, Event, Os, Process, Stop, exited, aborted}
use zevory_linux.Power.Actions.{Action, kernel_command}
use zevory_linux.Signal.{Request, shutdown, classify}

-- `child`: the process is the other side of a `fork`, on its way to be a shell.
pub data Phase : Type 0 where
  up child : Phase
  down flushed : Action → Phase

module _ (o : Os) where
  -- A signal was read: one that asks for a way down ends the supervision.
  abbrev pub asked : Request → Phase
  asked (shutdown a) = down a
  asked _ = up

  abbrev heard : Phase → Reply → Phase
  heard up r = if r.rc ==ℤ pos o.siginfo_size then asked (classify o r.out) else up
  heard p r = p

  abbrev forked : Phase → Reply → Phase
  forked up r = if r.rc ==ℤ pos 0 then child else up
  forked p r = p

  abbrev synced : Phase → Phase
  synced (down a) = flushed a
  synced p = p

  -- the phase after a call and its reply
  abbrev pub turn : Phase → Call → Option Reply → Phase
  turn p (Call.read fd n) (some r) = heard p r
  turn p Call.fork (some r) = forked p r
  turn p Call.sync (some r) = synced p
  turn p _ _ = p

  abbrev pub phase : List Event → Phase
  phase [] = up
  phase (e ∷ t) = turn (phase t) e.made e.reply

  -- Signals to others are sent on the way down only: SIGHUP to a session, the rest to everyone.
  abbrev pub MayKill : ℤ → ℤ → Phase → Type 0
  MayKill pid sig (down a) =
      (sig ≡ o.sighup)
      ⊎ ((pid ≡ negsuc 0) × ((sig ≡ o.sigterm) ⊎ (sig ≡ o.sigcont) ⊎ (sig ≡ o.sigkill)))
  MayKill pid sig _ = ⊥

  -- The machine goes down by the command of the action that was asked for, and only once the
  -- filesystems are flushed. Apart from that, `reboot` only says who has Ctrl+Alt+Del.
  abbrev pub MayReboot : ℤ → Phase → Type 0
  MayReboot c up = (c ≡ o.rb_disable_cad) ⊎ (c ≡ o.rb_enable_cad)
  MayReboot c (flushed a) = (c ≡ kernel_command o a) ⊎ (c ≡ o.rb_enable_cad)
  MayReboot c _ = ⊥

  abbrev OnlyUp : Phase → Type 0
  OnlyUp up = Unit
  OnlyUp _ = ⊥

  abbrev pub OnlyChild : Phase → Type 0
  OnlyChild child = Unit
  OnlyChild _ = ⊥

  abbrev OnlyDown : Phase → Type 0
  OnlyDown (down a) = Unit
  OnlyDown _ = ⊥

  abbrev pub UpOrDown : Phase → Type 0
  UpOrDown up = Unit
  UpOrDown (down a) = Unit
  UpOrDown _ = ⊥

  abbrev pub Allowed : Phase → Call → Type 0
  Allowed p (Call.kill pid sig) = MayKill pid sig p
  Allowed p (Call.reboot c) = MayReboot c p
  Allowed p Call.sync = OnlyDown p
  Allowed p Call.fork = OnlyUp p
  Allowed p (Call.mount _ _ _ _ _) = OnlyUp p
  Allowed p (Call.mknod _ _ _) = OnlyUp p
  Allowed p (Call.execv _ _) = OnlyChild p
  Allowed p (Call.waitpid _ _) = UpOrDown p
  Allowed p (Call.poll _ _ _) = UpOrDown p
  Allowed p (Call.read _ _) = UpOrDown p
  Allowed p _ = Unit

  -- Every call was allowed in the phase in which it was made.
  abbrev pub Orderly : List Event → Type 0
  Orderly [] = Unit
  Orderly (e ∷ t) = Allowed (phase t) e.made × Orderly t

  pub record In (p : Phase) (s : Process) : Type 0 where
    pub orderly : Orderly s.trace
    pub here : phase s.trace ≡ p

  -- How a run may stop: a child that could not `exec` exits with 127; pid 1 never exits or panics.
  abbrev pub EndsWell : Stop → Phase → Type 0
  EndsWell (exited code) p = (code ≡ pos 127) × (p ≡ child)
  EndsWell aborted p = ⊥
  EndsWell _ p = Unit

  pub record Ended (why : Stop) (s : Process) : Type 0 where
    pub orderly : Orderly s.trace
    pub well : EndsWell why (phase s.trace)
