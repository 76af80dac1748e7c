-- ===== src/UnitTests/Children.antt =====
-- The tests of zevinit/src/proc.rs. They run in the monad, since the table asks for the time.
use zevory_linux.Prelude.{
  ℕ, ◌*◌, ◌^◌, ◌≡◌, refl, List, [], ◌∷◌, Bool, true, false, not, ◌&&◌, ◌==◌, Option, none, some, ℤ,
  pos, ◌==ℤ◌, keep, as_u64,
}
use zevory_linux.Sys.Io.{bytes}
use zevory_linux.Sys.{monotonic_secs, exit_code, termination_signal}
use zevory_linux.Os.{Text, Os, Process, done, M, pure, ◌>>=◌, call}
use zevory_linux.Log.{not_open_yet}
use zevory_linux.Proc
use zevory_linux.Proc.{
  Table, State, running, exited, killed, Departed, state_from, track, record_exit, running_count,
  forget_finished, session_leaders, finish, depart, tracked, is_live, is_running,
}
use zevory_linux.Scenarios.Linux.{steady_os}
use zevory_linux.UnitTests.{text_eq}

-- the tests' `exited(code)` and `killed(signal)`: the status words
unfoldable pub exit_status : ℕ → ℤ
exit_status code = pos (code * 2 ^ 8)

unfoldable pub kill_status : ℤ → ℤ
kill_status signal = signal

abbrev pub is_exited : State → ℤ → Bool
is_exited (exited c) code = c ==ℤ code
is_exited _ code = false

abbrev pub is_killed : State → ℤ → Bool
is_killed (killed s) signal = s ==ℤ signal
is_killed _ signal = false

abbrev pub is_gone : Option Departed → Bool
is_gone none = false
is_gone (some d) = true

abbrev pids_eq : List ℤ → List ℤ → Bool
pids_eq [] [] = true
pids_eq (p ∷ ps) (q ∷ qs) = p ==ℤ q && pids_eq ps qs
pids_eq _ _ = false

abbrev holds : {A : Type 0} → Option A → (A → Bool) → Bool
holds none f = false
holds (some a) f = f a

module _ (o : Os) where
  unfoldable pub track_for_test : Table → Text → ℤ → M Table
  track_for_test table name pid = track o table name pid false

  abbrev pub a_normal_exit_keeps_its_code : Bool
  a_normal_exit_keeps_its_code =
      is_exited (state_from o (exit_status 0)) (pos 0)
      && is_exited (state_from o (exit_status 127)) (pos 127)

  abbrev pub a_signal_death_is_not_an_exit : Bool
  a_signal_death_is_not_an_exit =
      is_killed (state_from o (kill_status o.sigkill)) o.sigkill
      && is_killed (state_from o (kill_status o.sigterm)) o.sigterm

  abbrev pub an_unknown_pid_is_not_recorded : M Bool
  an_unknown_pid_is_not_recorded = do
    t ← track_for_test Proc.new (bytes "shell") (pos 100)
    (gone, t') ← record_exit o t (pos 4242) (exit_status 0)
    pure (not (is_gone gone) && running_count t' == 1)

  abbrev pub recording_an_exit_stops_counting_it_as_running : M Bool
  recording_an_exit_stops_counting_it_as_running = do
    t ← track_for_test Proc.new (bytes "shell") (pos 100)
    (gone, t') ← record_exit o t (pos 100) (exit_status 3)
    pure (
        running_count t == 1
        && holds gone
            (λ d. text_eq d.name (bytes "shell") && d.pid ==ℤ pos 100 && is_exited d.state (pos 3))
        && running_count t' == 0)

  abbrev pub the_same_pid_is_not_reaped_twice : M Bool
  the_same_pid_is_not_reaped_twice = do
    t ← track_for_test Proc.new (bytes "shell") (pos 100)
    (gone, t') ← record_exit o t (pos 100) (exit_status 0)
    (again, _) ← record_exit o t' (pos 100) (exit_status 0)
    pure (is_gone gone && not (is_gone again))

  abbrev pub a_recycled_pid_lands_on_the_live_entry : M Bool
  a_recycled_pid_lands_on_the_live_entry = do
    t ← track_for_test Proc.new (bytes "first") (pos 100)
    (_, t') ← record_exit o t (pos 100) (exit_status 0)
    u ← track_for_test t' (bytes "second") (pos 100)
    (gone, u') ← record_exit o u (pos 100) (exit_status 9)
    pure (holds gone (λ d. text_eq d.name (bytes "second")) && running_count u' == 0)

  -- `for pid in pids { table.track_for_test("worker", pid) }`
  unfoldable pub track_workers : Table → List ℤ → M Table
  track_workers t [] = pure t
  track_workers t (pid ∷ pids) = do
    t' ← track_for_test t (bytes "worker") pid
    track_workers t' pids

  -- `for pid in pids { assert!(table.record_exit(pid, exited(0)).is_some()) }`
  unfoldable pub record_workers : Table → List ℤ → M (Bool × Table)
  record_workers t [] = pure (true, t)
  record_workers t (pid ∷ pids) = do
    (gone, t') ← record_exit o t pid (exit_status 0)
    (rest, u) ← record_workers t' pids
    pure (is_gone gone && rest, u)

  abbrev pub several_children_are_tracked_independently : M Bool
  several_children_are_tracked_independently = do
    let pids = pos 200 ∷ pos 201 ∷ pos 202 ∷ pos 203 ∷ pos 204 ∷ []
    t ← track_workers Proc.new pids
    (all, t') ← record_workers t pids
    pure (running_count t == 5 && all && running_count t' == 0)

  abbrev pub forgetting_drops_the_dead_and_keeps_the_living : M Bool
  forgetting_drops_the_dead_and_keeps_the_living = do
    t ← track_for_test Proc.new (bytes "dead") (pos 100)
    u ← track_for_test t (bytes "alive") (pos 101)
    (_, u') ← record_exit o u (pos 100) (exit_status 0)
    let left = forget_finished u'
    (alive, v) ← record_exit o left (pos 101) (exit_status 0)
    (dead, _) ← record_exit o v (pos 100) (exit_status 0)
    pure (running_count left == 1 && is_gone alive && not (is_gone dead))

  abbrev pub only_live_session_leaders_get_hung_up : M Bool
  only_live_session_leaders_get_hung_up = do
    t ← track o Proc.new (bytes "plain") (pos 100) false
    u ← track o t (bytes "leader") (pos 101) true
    v ← track o u (bytes "dead leader") (pos 102) true
    (_, v') ← record_exit o v (pos 102) (exit_status 0)
    pure (pids_eq (session_leaders v') (pos 101 ∷ []))

  abbrev pub a_table_with_no_sessions_hangs_nothing_up : M Bool
  a_table_with_no_sessions_hangs_nothing_up = do
    t ← track_for_test Proc.new (bytes "plain") (pos 100)
    pure (pids_eq (session_leaders t) [])

abbrev pub an_empty_table_has_nothing_running : Bool
an_empty_table_has_nothing_running =
    running_count Proc.new == 0 && running_count (forget_finished Proc.new) == 0

abbrev machine : Os
machine = steady_os (pos 15)

abbrev fresh : Process
fresh = record { trace = []; kmsg = not_open_yet }

abbrev passes : M Bool → Bool
passes test = elim (test fresh).0 [ done b ↦ b | _ ↦ false ]

tests_pass :
    a_normal_exit_keeps_its_code machine
      && a_signal_death_is_not_an_exit machine
      && passes (an_unknown_pid_is_not_recorded machine)
      && passes (recording_an_exit_stops_counting_it_as_running machine)
      && passes (the_same_pid_is_not_reaped_twice machine)
      && passes (a_recycled_pid_lands_on_the_live_entry machine)
      && passes (several_children_are_tracked_independently machine)
      && passes (forgetting_drops_the_dead_and_keeps_the_living machine)
      && passes (only_live_session_leaders_get_hung_up machine)
      && passes (a_table_with_no_sessions_hangs_nothing_up machine)
      && an_empty_table_has_nothing_running
    ≡ true
unfolding track_for_test track_workers record_workers state_from exit_status kill_status exit_code
    ◌==ℤ◌ termination_signal ◌>>=◌ track monotonic_secs call record_exit finish Proc.new is_live
    tracked running_count keep is_running text_eq depart pure as_u64 bytes forget_finished
    session_leaders
tests_pass = refl
