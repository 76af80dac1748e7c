-- ===== src/Signal.antt =====
-- zevinit/src/signal.rs: the signals that are watched, what they ask for, and the reaping.
pub mod Reaping
pub mod Refinement
pub mod Termination
pub mod Requests
use zevory_linux.Prelude.{
  ℕ, zero, suc, min, List, [], ◌∷◌, ◌++◌, Bool, true, false, ◌||◌, Option, none, some, ℤ, negsuc,
  ◌==ℤ◌, if◌then◌else◌,
}
use zevory_linux.Os.{Text, Os, M, pure, stop, out_of_fuel, ◌>>=◌, ◌>>◌}
use zevory_linux.Sys
use zevory_linux.Sys.{reaped_child, still_running, no_children_left}
use zevory_linux.Sys.Io.{bytes, Result, ok, display, display_int, attempt}
use zevory_linux.Log
use zevory_linux.Power.Actions.{Action, reboot, power_off, halt}
use zevory_linux.Proc.{Table, running, exited, killed, Departed, record_exit, forget_finished}

pub data Request : Type 0 where
  child_changed reload : Request
  shutdown : Action → Request
  unknown : ℤ → Request

abbrev pub until_something_arrives : ℤ
until_something_arrives = negsuc 0

pub record Signals : Type 0 where
  pub fd : ℤ

pub record Harvest : Type 0 where
  pub shortest_life : Option ℕ
  pub children_left : Bool

-- `Some(shortest_life.map_or(ran_for, |s| s.min(ran_for)))`
unfoldable pub shorter : Option ℕ → ℕ → Option ℕ
shorter none ran_for = some ran_for
shorter (some s) ran_for = some (min s ran_for)

module _ (o : Os) where
  unfoldable pub watched : List ℤ
  watched = o.sigchld ∷ o.sigterm ∷ o.sigint ∷ o.sigusr1 ∷ o.sigusr2 ∷ o.sigpwr ∷ o.sighup ∷ []

  unfoldable pub classify : ℤ → Request
  classify signal =
      if signal ==ℤ o.sigchld
      then child_changed
      else if signal ==ℤ o.sigterm || signal ==ℤ o.sigint
      then shutdown reboot
      else if signal ==ℤ o.sigusr2
      then shutdown power_off
      else if signal ==ℤ o.sigusr1 || signal ==ℤ o.sigpwr
      then shutdown halt
      else if signal ==ℤ o.sighup
      then reload
      else unknown signal

  unfoldable pub name : ℤ → Text
  name signal =
      if signal ==ℤ o.sigchld
      then bytes "SIGCHLD"
      else if signal ==ℤ o.sigterm
      then bytes "SIGTERM"
      else if signal ==ℤ o.sigint
      then bytes "SIGINT"
      else if signal ==ℤ o.sigusr1
      then bytes "SIGUSR1"
      else if signal ==ℤ o.sigusr2
      then bytes "SIGUSR2"
      else if signal ==ℤ o.sigpwr
      then bytes "SIGPWR"
      else if signal ==ℤ o.sighup
      then bytes "SIGHUP"
      else bytes "an unwatched signal"

  unfoldable pub install : List ℤ → M (Result Signals)
  install signals =
      attempt (Sys.block_signals o signals)
        λ _. attempt (Sys.signal_fd o signals) λ fd. pure (ok (record { fd = fd }))

  unfoldable pub wait : Signals → ℤ → M (Result (Option ℤ))
  wait signals millis = attempt (Sys.poll_readable o signals.fd millis) λ readable. elim readable [
    | true ↦ attempt (Sys.read_signal o signals.fd) λ signal. pure (ok (some signal))
    | false ↦ pure (ok none)
  ]

  -- the `match gone.state` of `reap_all`
  unfoldable pub log_departure : Departed → M Unit
  log_departure gone = elim gone.state [
    | exited code ↦ Log.info o (
        gone.name
        ++ (bytes " ["
            ++ (display_int gone.pid
                ++ (bytes "] exited with "
                    ++ (display_int code
                        ++ (bytes " after " ++ (display gone.ran_for ++ bytes "s")))))))
    | killed signal ↦ Log.warn o (
        gone.name
        ++ (bytes " ["
            ++ (display_int gone.pid
                ++ (bytes "] killed by signal "
                    ++ (display_int signal
                        ++ (bytes " after " ++ (display gone.ran_for ++ bytes "s")))))))
    | running ↦ pure tt
  ]

  -- one child that `reap_one` gave: the table and the shortest life after it
  unfoldable pub bury : Table → Option ℕ → ℤ → ℤ → M (Table × Option ℕ)
  bury table shortest pid status = do
    (gone, table') ← record_exit o table pid status
    elim gone [
      | none ↦ (do
        Log.info o (bytes "reaped orphan [" ++ (display_int pid ++ bytes "]"))
        pure (table', shortest))
      | some departed ↦ (do
        log_departure departed
        pure (table', shorter shortest departed.ran_for))
    ]

  -- the loop of `reap_all`: whether children are left, the table and the shortest life
  unfoldable pub reap_from : ℕ → Table → Option ℕ → M (Bool × Table × Option ℕ)
  reap_from zero table shortest = stop out_of_fuel
  reap_from (suc fuel) table shortest = do
    reaped ← Sys.reap_one o
    elim reaped [
      | still_running ↦ pure (true, table, shortest)
      | no_children_left ↦ pure (false, table, shortest)
      | reaped_child pid status ↦ (do
        (table', shortest') ← bury table shortest pid status
        reap_from fuel table' shortest')
    ]

  -- The fuel bounds the children that one call can find.
  unfoldable pub reap_all : ℕ → Table → M (Harvest × Table)
  reap_all fuel table = do
    (children_left, table', shortest) ← reap_from fuel table none
    pure
        (record { shortest_life = shortest; children_left = children_left }, forget_finished table')
