-- ===== src/Proc.antt =====
-- zevinit/src/proc.rs: the table of children and the start of one.
pub mod Entries
pub mod Distinct
pub mod Live
pub mod Script
pub mod Starts
use zevory_linux.Prelude.{
  ℕ, ◌-◌, List, [], ◌∷◌, ◌++◌, map, Bool, true, false, ◌&&◌, Option, none, some, ℤ, pos, negsuc,
  ◌==ℤ◌, length, keep, if◌then◌else◌,
}
use zevory_linux.Os.{Text, Os, M, pure, ◌>>=◌, ◌>>◌, when}
use zevory_linux.Sys
use zevory_linux.Sys.{parent, child, exit_child}
use zevory_linux.Sys.Io.{bytes, Result, ok, err, display_error, attempt}
use zevory_linux.Log
use zevory_linux.Console.{exists}

pub record Spec : Type 0 where
  pub name : Text
  pub path : Text
  pub argv : List Text
  pub wants_own_session : Bool

pub data State : Type 0 where
  running : State
  exited killed : ℤ → State

pub record Entry : Type 0 where
  pub name : Text
  pub pid : ℤ
  pub state : State
  pub started_at : ℕ
  pub owns_session : Bool

-- `struct Table` has the one field `entries`.
abbrev pub Table : Type 0
Table = List Entry

pub record Departed : Type 0 where
  pub name : Text
  pub pid : ℤ
  pub state : State
  pub ran_for : ℕ

-- `state == State::Running`
unfoldable pub is_running : State → Bool
is_running running = true
is_running (exited code) = false
is_running (killed signal) = false

unfoldable pub new : Table
new = []

unfoldable pub session_leaders : Table → List ℤ
session_leaders t = map (λ e. e.pid) (keep (λ e. e.owns_session && is_running e.state) t)

unfoldable pub running_count : Table → ℕ
running_count t = length (keep (λ e. is_running e.state) t)

unfoldable pub forget_finished : Table → Table
forget_finished = keep (λ e. is_running e.state)

-- the test of `record_exit`'s `find`
unfoldable pub is_live : ℤ → Entry → Bool
is_live pid e = e.pid ==ℤ pid && is_running e.state

-- `iter_mut().find(…)` and the assignment to the entry found: the entry as it was, and the table
unfoldable pub finish : ℤ → State → Table → Option (Entry × Table)
finish pid state [] = none
finish pid state (e ∷ t) =
    if is_live pid e
    then some (e, record e { state = state } ∷ t)
    else elim (finish pid state t) [ none ↦ none | some (found, t') ↦ some (found, e ∷ t') ]

unfoldable pub depart : Entry → State → ℕ → Departed
depart e state now = record {
  name = e.name;
  pid = e.pid;
  state = state;
  ran_for = now - e.started_at;
}

unfoldable pub tracked : Text → ℤ → Bool → ℕ → Entry
tracked name pid owns_session now = record {
  name = name;
  pid = pid;
  state = running;
  started_at = now;
  owns_session = owns_session;
}

module _ (o : Os) where
  unfoldable pub is_available : Spec → M Bool
  is_available spec = exists o spec.path

  unfoldable pub state_from : ℤ → State
  state_from status = elim (Sys.exit_code o status) [
    | some code ↦ exited code
    | none ↦ elim (Sys.termination_signal o status) [
      | some signal ↦ killed signal
      | none ↦ exited (negsuc 0)
    ]
  ]

  unfoldable pub track : Table → Text → ℤ → Bool → M Table
  track t name pid owns_session = do
    now ← Sys.monotonic_secs o
    pure (t ++ tracked name pid owns_session now ∷ [])

  -- what the child does between `fork` and `exec`, and where `exec` fails
  unfoldable pub become : Spec → M (Result ℤ)
  become spec = do
    Sys.unblock_all_signals o
    when spec.wants_own_session (do Sys.new_session o; Sys.set_ctty o o.stdin_fileno true; pure tt)
    failure ← Sys.exec o spec.path spec.argv
    Log.error o (bytes "could not exec " ++ (spec.path ++ (bytes ": " ++ display_error o failure)))
    exit_child o (pos 127)

  unfoldable pub spawn_process : Spec → M (Result ℤ)
  spawn_process spec =
      attempt (Sys.fork o)
        λ forked. elim forked [ parent pid ↦ pure (ok pid) | child ↦ become spec ]

  -- `Table::spawn`; the table is returned beside the result
  unfoldable pub spawn : Table → Spec → M (Result ℤ × Table)
  spawn t spec = do
    started ← spawn_process spec
    elim started [
      | err e ↦ pure (err e, t)
      | ok pid ↦ (do t' ← track t spec.name pid spec.wants_own_session; pure (ok pid, t'))
    ]

  unfoldable pub record_exit : Table → ℤ → ℤ → M (Option Departed × Table)
  record_exit t pid status = elim (finish pid (state_from status) t) [
    | none ↦ pure (none, t)
    | some (e, t') ↦ (do
      now ← Sys.monotonic_secs o
      pure (some (depart e (state_from status) now), t'))
  ]
