-- ===== src/Power.antt =====
-- zevinit/src/power.rs: going down.
pub mod Actions
pub mod Waiting
pub mod Silence
pub mod Sending
pub mod Protocol
pub mod Verdicts
pub mod Ends
use zevory_linux.Prelude.{
  ℕ, zero, suc, ◌+◌, ◌%◌, ◌^◌, List, [], ◌∷◌, ◌++◌, Bool, true, false, Option, none, some, ℤ, pos,
  leb,
}
use zevory_linux.Os.{Text, Os, M, pure, stop, out_of_fuel, ◌>>=◌, ◌>>◌}
use zevory_linux.Sys
use zevory_linux.Sys.Io.{bytes, IoError, Result, ok, err, display}
use zevory_linux.Log
use zevory_linux.Proc.{Table, session_leaders}
use zevory_linux.Signal.{Signals, Request, child_changed, classify, wait, reap_all}
use zevory_linux.Signal
use Actions.{Action, name, kernel_command}

abbrev pub grace_secs : ℕ
grace_secs = 5

abbrev pub after_kill_secs : ℕ
after_kill_secs = 2

abbrev pub check_every_ms : ℤ
check_every_ms = pos 100

module _ (o : Os) where
  -- the loop over `table.session_leaders()`
  unfoldable pub hang_up : List ℤ → M Unit
  hang_up [] = pure tt
  hang_up (leader ∷ leaders) = do Sys.signal_group o leader o.sighup; hang_up leaders

  -- the `if let … && …` on what `signals.wait` gave
  unfoldable pub note_arrival : Result (Option ℤ) → M Unit
  note_arrival (ok (some arrived)) = elim (classify o arrived) [
    | child_changed ↦ pure tt
    | _ ↦ Log.info o (Signal.name o arrived ++ bytes " arrived while shutting down, already on it")
  ]
  note_arrival (ok none) = pure tt
  note_arrival (err e) = pure tt

-- `fuel` bounds the children that one reaping can find, `rounds` the rounds of the waiting loop.
module _ (o : Os) (fuel : ℕ) (signals : Signals) where
  unfoldable pub wait_rounds : ℕ → Table → ℕ → M (Bool × Table)
  wait_rounds zero table deadline = stop out_of_fuel
  wait_rounds (suc rounds) table deadline = do
    (harvest, table') ← reap_all o fuel table
    elim harvest.children_left [
      | false ↦ pure (true, table')
      | true ↦ (do
        now ← Sys.monotonic_secs o
        elim (leb deadline now) [
          | true ↦ pure (false, table')
          | false ↦ (do
            arrived ← wait o signals check_every_ms
            note_arrival o arrived
            wait_rounds rounds table' deadline)
        ])
    ]

  unfoldable pub wait_for_silence : Table → ℕ → M (Bool × Table)
  wait_for_silence table secs = do
    now ← Sys.monotonic_secs o
    wait_rounds fuel table ((now + secs) % 2 ^ 64)

  -- the half of `stop_everything` after the first wait
  unfoldable pub kill_the_rest : Table → M Table
  kill_the_rest table = do
    Log.warn o (bytes "still busy after " ++ (display grace_secs ++ bytes "s, sending SIGKILL"))
    Log.to_console o
        (bytes "something ignored the first " ++ (display grace_secs ++ bytes "s, killing it\n"))
    Sys.signal_everyone o o.sigkill
    (silent, table') ← wait_for_silence table after_kill_secs
    elim silent [
      | true ↦ pure table'
      | false ↦ (do
        Log.error o (bytes "something outlived SIGKILL, going down regardless")
        pure table')
    ]

  -- what `stop_everything` does where the first reaping leaves children
  unfoldable pub terminate : Table → M Table
  terminate table = do
    Log.to_console o (bytes "stopping everything\n")
    hang_up o (session_leaders table)
    Sys.signal_everyone o o.sigterm
    Sys.signal_everyone o o.sigcont
    (silent, table') ← wait_for_silence table grace_secs
    elim silent [ true ↦ pure table' | false ↦ kill_the_rest table' ]

  unfoldable pub stop_everything : Table → M Table
  stop_everything table = do
    (harvest, table') ← reap_all o fuel table
    elim harvest.children_left [ false ↦ pure table' | true ↦ terminate table' ]

  unfoldable pub execute : Action → Table → M (IoError × Table)
  execute action table = do
    Log.to_console o (bytes "\nzevory is going down for " ++ (name action ++ bytes "\n"))
    Log.info o (name action ++ bytes " requested")
    table' ← stop_everything table
    Sys.flush_filesystems o
    Log.info o (bytes "asking the kernel to " ++ name action)
    failure ← Sys.hand_over_to_kernel o (kernel_command o action)
    pure (failure, table')
