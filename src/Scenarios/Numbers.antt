-- ===== src/Scenarios/Numbers.antt =====
-- Linux's numbers: what is said of all numbers, at these.
use zevory_linux.Prelude.{◌+◌, ◌*◌, ◌/◌, ◌%◌, ◌^◌, ◌<◌, ◌≡◌, [], ◌∷◌, true, ◌&&◌, pos, ◌==ℤ◌, arith}
use zevory_linux.Os.{Os}
use zevory_linux.Sys.{makedev}
use zevory_linux.Sys.Devices.{makedev_roundtrip}
use zevory_linux.UnitTests.Requests.{
  Apart, busybox_halt_poweroff_and_reboot_land_where_they_should,
  ctrl_alt_del_reboots_and_power_failure_halts, every_watched_signal_means_something,
  every_watched_signal_has_a_name, a_child_signal_is_what_sets_off_the_reaping,
  children_are_still_watched, no_signal_is_watched_twice, the_unblockable_signals_are_left_alone,
  an_unwatched_signal_stays_unknown, each_action_asks_the_kernel_for_something_different,
  the_kernel_commands_are_the_ones_we_mean, nothing_but_a_shutdown_signal_brings_the_machine_down,
  every_action_is_reachable_from_a_signal,
}
use zevory_linux.UnitTests.Requests.Pass.{signal_tests_pass, power_tests_pass}
use zevory_linux.UnitTests.Tables.{
  targets_are_absolute_and_unique, proc_and_sys_come_first, nothing_is_mounted_suid,
  mount_tests_pass,
}
use zevory_linux.Signal.{reload, classify}
use zevory_linux.Scenarios.Linux.{steady_os}

abbrev o : Os
o = steady_os (pos 15)

signals-Apart : Apart (
    o.sigchld
    ∷ o.sigterm
    ∷ o.sigint
    ∷ o.sigusr1
    ∷ o.sigusr2
    ∷ o.sigpwr
    ∷ o.sighup
    ∷ o.sigkill
    ∷ pos 19
    ∷ pos 28
    ∷ [])
unfolding ◌==ℤ◌
signals-Apart = ground arith

commands-Apart : Apart (o.rb_autoboot ∷ o.rb_power_off ∷ o.rb_halt_system ∷ [])
unfolding ◌==ℤ◌
commands-Apart = ground arith

signal_tests_pass_example :
    ((busybox_halt_poweroff_and_reboot_land_where_they_should o
          && ctrl_alt_del_reboots_and_power_failure_halts o
          && a_child_signal_is_what_sets_off_the_reaping o)
        && every_watched_signal_means_something o
        && every_watched_signal_has_a_name o
        && (children_are_still_watched o
            && no_signal_is_watched_twice o
            && the_unblockable_signals_are_left_alone o (pos 19))
        && an_unwatched_signal_stays_unknown o (pos 28)
      ≡ true)
    × (classify o o.sighup ≡ reload)
signal_tests_pass_example = signal_tests_pass o (pos 19) (pos 28) signals-Apart

power_tests_pass_example :
    each_action_asks_the_kernel_for_something_different o
      && the_kernel_commands_are_the_ones_we_mean o
      && nothing_but_a_shutdown_signal_brings_the_machine_down o
      && every_action_is_reachable_from_a_signal o
    ≡ true
power_tests_pass_example = power_tests_pass o (pos 19) (pos 28) signals-Apart commands-Apart

mount_tests_pass_example :
    targets_are_absolute_and_unique o && proc_and_sys_come_first o && nothing_is_mounted_suid o
    ≡ true
mount_tests_pass_example = mount_tests_pass o (omega arith)

-- Minor 256 of major 8 has its upper bits above the major's.
makedev_roundtrip_example :
    (makedev 8 256 < 2 ^ 64)
    × (makedev 8 256 / 2 ^ 44 * 2 ^ 12 + makedev 8 256 / 2 ^ 8 % 2 ^ 12 ≡ 8)
    × (makedev 8 256 / 2 ^ 20 % 2 ^ 24 * 2 ^ 8 + makedev 8 256 % 2 ^ 8 ≡ 256)
makedev_roundtrip_example = makedev_roundtrip 8 256 (omega arith) (omega arith)
