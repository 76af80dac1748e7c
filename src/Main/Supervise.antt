-- ===== src/Main/Supervise.antt =====
-- zevinit/src/main.rs: `supervise` and what it calls.
use zevory_linux.Prelude.{
  ℕ, zero, suc, ◌+◌, ◌%◌, ◌^◌, ◌++◌, true, false, Option, none, some, ℤ, pos, ◌==◌, leb,
  if◌then◌else◌,
}
use zevory_linux.Os.{Os, M, pure, stop, out_of_fuel, ◌>>=◌, ◌>>◌}
use zevory_linux.Sys
use zevory_linux.Sys.Io.{bytes, Result, ok, err, display_int, display_error, is_interrupted}
use zevory_linux.Log
use zevory_linux.Proc.{Table, running_count, spawn}
use zevory_linux.Shell
use zevory_linux.Shell.{
  Rescue, Verdict, keep_trying, moved_on, out_of_options, candidates, survived,
}
use zevory_linux.Signal.{
  Signals, Harvest, child_changed, reload, shutdown, unknown, Request, classify, reap_all, wait,
  install, watched, until_something_arrives,
}
use zevory_linux.Signal
use zevory_linux.Power.Actions.{Action}
use zevory_linux.Main.Setup.{or_panic, park}

abbrev pub respawn_is_too_fast : ℕ
respawn_is_too_fast = 1

abbrev pub respawn_backoff_secs : ℕ
respawn_backoff_secs = 1

abbrev pub backoff_check_ms : ℤ
backoff_check_ms = pos 100

abbrev plus_secs : ℕ → ℕ → ℕ
plus_secs now n = (now + n) % 2 ^ 64

-- What the loop of `supervise` keeps from one round to the next.
pub record Watch : Type 0 where
  pub table : Table
  pub rescue : Rescue
  pub respawn_at : ℕ

-- A round ends with the loop going on, or with an action.
pub data Round : Type 0 where
  again : Watch → Round
  going_down : Action → Table → Round

module _ (o : Os) (fuel : ℕ) where
  unfoldable pub start : Table → Rescue → M Table
  start table rescue = do
    spec ← or_panic o (Shell.shell rescue)
    (started, table') ← spawn o table spec
    elim started [
      | ok _ ↦ pure table'
      | err e ↦
          park o fuel (
            bytes "cannot start "
            ++ (spec.path ++ (bytes " (" ++ (display_error o e ++ bytes ")"))))
    ]

  unfoldable pub give_up_or_fall_back : Rescue → M Rescue
  give_up_or_fall_back rescue = do
    dying ← or_panic o (Shell.shell rescue)
    (verdict, rescue') ← or_panic o (Shell.failed rescue)
    elim verdict [
      | keep_trying ↦ pure rescue'
      | moved_on next ↦ (do
        Log.error o (dying.path ++ (bytes " keeps dying, falling back to " ++ next.path))
        pure rescue')
      | out_of_options ↦ park o fuel (
          bytes "every shell we know about dies on startup, "
          ++ (dying.path ++ bytes " was the last one"))
    ]

  -- the top of the loop: a shell is started where none runs and the backoff is over
  unfoldable pub respawn : Watch → M Watch
  respawn w = elim (running_count w.table == 0) [
    | false ↦ pure w
    | true ↦ (do
      now ← Sys.monotonic_secs o
      elim (leb w.respawn_at now) [
        | false ↦ pure w
        | true ↦ (do table' ← start w.table w.rescue; pure (record w { table = table' }))
      ])
  ]

  -- `Request::ChildChanged`
  unfoldable pub after_reaping : Watch → Option ℕ → M Watch
  after_reaping w none = pure w
  after_reaping w (some ran_for) = elim (leb respawn_is_too_fast ran_for) [
    | true ↦ pure (record w { rescue = survived w.rescue })
    | false ↦ (do
      now ← Sys.monotonic_secs o
      rescue' ← give_up_or_fall_back w.rescue
      pure (record w { rescue = rescue'; respawn_at = plus_secs now respawn_backoff_secs }))
  ]

  unfoldable pub obey : Watch → ℤ → M Round
  obey w signal = elim (classify o signal) [
    | child_changed ↦ (do
      (harvest, table') ← reap_all o fuel w.table
      w' ← after_reaping (record w { table = table' }) harvest.shortest_life
      pure (again w'))
    | reload ↦ (do
      Log.info o (
          Signal.name o signal
          ++ bytes " asked for a reload, zevinit has no configuration to reread")
      pure (again w))
    | shutdown action ↦ pure (going_down action w.table)
    | unknown other ↦ (do
      Log.info o (bytes "nothing is wired to signal " ++ display_int other)
      pure (again w))
  ]

  -- the `match signals.wait(how_long)`
  unfoldable pub heed : Watch → Result (Option ℤ) → M Round
  heed w (ok (some signal)) = obey w signal
  heed w (ok none) = pure (again w)
  heed w (err e) = elim (is_interrupted o e) [
    | true ↦ pure (again w)
    | false ↦ park o fuel (bytes "lost the signal stream (" ++ (display_error o e ++ bytes ")"))
  ]

  -- `idle` is read before the shell is started
  abbrev how_long : Watch → ℤ
  how_long w = if running_count w.table == 0 then backoff_check_ms else until_something_arrives

  -- one round of the loop of `supervise`
  unfoldable pub round : Signals → Watch → M Round
  round signals w = do w' ← respawn w; arrived ← wait o signals (how_long w); heed w' arrived

  unfoldable pub supervise_rounds : ℕ → Signals → Watch → M (Action × Table)
  supervise_rounds zero signals w = stop out_of_fuel
  supervise_rounds (suc rounds) signals w = do
    next ← round signals w
    elim next [
      | again w' ↦ supervise_rounds rounds signals w'
      | going_down action table ↦ pure (action, table)
    ]

  unfoldable pub supervise : Table → Signals → Rescue → M (Action × Table)
  supervise table signals rescue =
      supervise_rounds fuel signals (record { table = table; rescue = rescue; respawn_at = 0 })
