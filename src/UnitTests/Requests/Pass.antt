-- ===== src/UnitTests/Requests/Pass.antt =====
-- The tests of signal.rs and power.rs pass wherever libc gives different numbers to what they name.
use zevory_linux.Prelude.{◌≡◌, refl, [], ◌∷◌, Bool, true, ◌&&◌, ℤ, ◌==ℤ◌, keep, arith, ==ℤ_iff}
use zevory_linux.Os.{Os}
use zevory_linux.Sys.Io.{bytes}
use zevory_linux.Signal.{reload, classify, name, watched}
use zevory_linux.Power.Actions.{kernel_command}
use zevory_linux.UnitTests.{text_eq, contains, insert_each, each}
use zevory_linux.UnitTests.Requests.{
  Apart, actions_of, busybox_halt_poweroff_and_reboot_land_where_they_should,
  ctrl_alt_del_reboots_and_power_failure_halts, every_watched_signal_means_something,
  every_watched_signal_has_a_name, a_child_signal_is_what_sets_off_the_reaping,
  children_are_still_watched, no_signal_is_watched_twice, the_unblockable_signals_are_left_alone,
  an_unwatched_signal_stays_unknown, each_action_asks_the_kernel_for_something_different,
  the_kernel_commands_are_the_ones_we_mean, nothing_but_a_shutdown_signal_brings_the_machine_down,
  every_action_is_reachable_from_a_signal,
}

==ℤ_self : (s : ℤ) → (s ==ℤ s) ≡ true
==ℤ_self s = (==ℤ_iff s s).1 refl

and_all : {a b : Bool} → a ≡ true → b ≡ true → (a && b) ≡ true
and_all {a} {b} h k = rw (h, k)

module _ (o : Os) (sigstop sigwinch : ℤ)
    (apart : Apart (
      o.sigchld ∷ o.sigterm ∷ o.sigint ∷ o.sigusr1 ∷ o.sigusr2 ∷ o.sigpwr ∷ o.sighup ∷ o.sigkill
      ∷ sigstop ∷ sigwinch ∷ [])) where
  requests_asked :
      (busybox_halt_poweroff_and_reboot_land_where_they_should o
        && ctrl_alt_del_reboots_and_power_failure_halts o
        && a_child_signal_is_what_sets_off_the_reaping o)
      ≡ true
  unfolding classify
  requests_asked = ground (
    arith,
    ==ℤ_self o.sigusr1,
    ==ℤ_self o.sigusr2,
    ==ℤ_self o.sigterm,
    ==ℤ_self o.sigint,
    ==ℤ_self o.sigpwr,
    ==ℤ_self o.sigchld,
  )

  watched_known : every_watched_signal_means_something o ≡ true
  unfolding classify watched each
  watched_known = ground (
    arith,
    ==ℤ_self o.sigusr1,
    ==ℤ_self o.sigusr2,
    ==ℤ_self o.sigterm,
    ==ℤ_self o.sigint,
    ==ℤ_self o.sigpwr,
    ==ℤ_self o.sighup,
    ==ℤ_self o.sigchld,
  )

  watched_named : every_watched_signal_has_a_name o ≡ true
  unfolding name watched each bytes text_eq
  watched_named = ground (
    arith,
    ==ℤ_self o.sigusr1,
    ==ℤ_self o.sigusr2,
    ==ℤ_self o.sigterm,
    ==ℤ_self o.sigint,
    ==ℤ_self o.sigpwr,
    ==ℤ_self o.sighup,
    ==ℤ_self o.sigchld,
  )

  watched_well :
      (children_are_still_watched o
        && no_signal_is_watched_twice o
        && the_unblockable_signals_are_left_alone o sigstop)
      ≡ true
  unfolding watched contains insert_each each
  watched_well = ground (arith, ==ℤ_self o.sigchld)

  unwatched_unknown : an_unwatched_signal_stays_unknown o sigwinch ≡ true
  unfolding classify
  unwatched_unknown = ground (arith, ==ℤ_self sigwinch)

  hangup_reloads : classify o o.sighup ≡ reload
  unfolding classify
  hangup_reloads = ground (arith, ==ℤ_self o.sighup)

  downs : nothing_but_a_shutdown_signal_brings_the_machine_down o ≡ true
  unfolding watched classify keep
  downs = ground (
    arith,
    ==ℤ_self o.sigusr1,
    ==ℤ_self o.sigusr2,
    ==ℤ_self o.sigterm,
    ==ℤ_self o.sigint,
    ==ℤ_self o.sigpwr,
    ==ℤ_self o.sighup,
    ==ℤ_self o.sigchld,
  )

  reached : every_action_is_reachable_from_a_signal o ≡ true
  unfolding watched classify each contains actions_of
  reached = ground (
    arith,
    ==ℤ_self o.sigusr1,
    ==ℤ_self o.sigusr2,
    ==ℤ_self o.sigterm,
    ==ℤ_self o.sigint,
    ==ℤ_self o.sigpwr,
    ==ℤ_self o.sighup,
    ==ℤ_self o.sigchld,
  )

  -- Wherever libc gives different numbers to the seven watched signals, SIGKILL, SIGSTOP and
  -- SIGWINCH, all tests of signal.rs pass, which ask that SIGUSR1 and SIGPWR ask for a halt,
  -- SIGUSR2 for power off, SIGTERM and SIGINT for a reboot, SIGCHLD for reaping; that every
  -- watched signal means something and has a name, SIGCHLD is watched and no signal twice, SIGKILL
  -- and SIGSTOP are not, and SIGWINCH stays unknown; and, which no test asks, SIGHUP asks for a
  -- reload.
  pub signal_tests_pass :
      ((busybox_halt_poweroff_and_reboot_land_where_they_should o
            && ctrl_alt_del_reboots_and_power_failure_halts o
            && a_child_signal_is_what_sets_off_the_reaping o)
          && every_watched_signal_means_something o
          && every_watched_signal_has_a_name o
          && (children_are_still_watched o
              && no_signal_is_watched_twice o
              && the_unblockable_signals_are_left_alone o sigstop)
          && an_unwatched_signal_stays_unknown o sigwinch
        ≡ true)
      × (classify o o.sighup ≡ reload)
  signal_tests_pass = (
    rw (requests_asked, watched_known, watched_named, watched_well, unwatched_unknown) refl,
    hangup_reloads,
  )

  -- Wherever libc gives different numbers to the seven watched signals, SIGKILL, SIGSTOP and
  -- SIGWINCH, and to the three commands of reboot, these tests of power.rs pass: each action has a
  -- command of its own, the one that is meant; of the watched signals exactly SIGTERM, SIGINT,
  -- SIGUSR1, SIGUSR2 and SIGPWR bring the machine down; and each action is asked for by one of
  -- them.
  pub power_tests_pass :
      Apart (o.rb_autoboot ∷ o.rb_power_off ∷ o.rb_halt_system ∷ [])
      → each_action_asks_the_kernel_for_something_different o
          && the_kernel_commands_are_the_ones_we_mean o
          && nothing_but_a_shutdown_signal_brings_the_machine_down o
          && every_action_is_reachable_from_a_signal o
        ≡ true
  unfolding kernel_command insert_each contains
  power_tests_pass commands =
      rw (downs, reached)
        (ground (arith, ==ℤ_self o.rb_autoboot, ==ℤ_self o.rb_power_off, ==ℤ_self o.rb_halt_system))
