-- ===== src/UnitTests/Requests.antt =====
-- The tests of zevinit/src/signal.rs and zevinit/src/power.rs, for all numbers that libc may give
-- to signals and commands.
pub mod Pass
use zevory_linux.Prelude.{
  ◌≡◌, refl, List, [], ◌∷◌, Bool, true, false, not, ◌&&◌, ◌||◌, ◌==◌, ℤ, ◌==ℤ◌, All, keep,
  if◌then◌else◌, arith, ==ℤ_iff,
}
use zevory_linux.Os.{Os, Text}
use zevory_linux.Sys.Io.{bytes}
use zevory_linux.Signal.{Request, child_changed, reload, shutdown, unknown, classify, name, watched}
use zevory_linux.Power.Actions
use zevory_linux.Power.Actions.{Action, reboot, power_off, halt, kernel_command}
use zevory_linux.UnitTests.{text_eq, contains, insert_each, each}

abbrev pub action_eq : Action → Action → Bool
action_eq reboot reboot = true
action_eq power_off power_off = true
action_eq halt halt = true
action_eq _ _ = false

-- `==` of `Request`, derived
abbrev pub request_eq : Request → Request → Bool
request_eq child_changed child_changed = true
request_eq reload reload = true
request_eq (shutdown a) (shutdown b) = action_eq a b
request_eq (unknown s) (unknown t) = s ==ℤ t
request_eq _ _ = false

abbrev pub is_shutdown : Request → Bool
is_shutdown (shutdown a) = true
is_shutdown _ = false

abbrev pub signals_eq : List ℤ → List ℤ → Bool
signals_eq [] [] = true
signals_eq (s ∷ ss) (t ∷ ts) = s ==ℤ t && signals_eq ss ts
signals_eq _ _ = false

-- `filter_map` of the requests to the actions that they ask for
unfoldable pub actions_of : List Request → List Action
actions_of [] = []
actions_of (shutdown a ∷ rs) = a ∷ actions_of rs
actions_of (child_changed ∷ rs) = actions_of rs
actions_of (reload ∷ rs) = actions_of rs
actions_of (unknown s ∷ rs) = actions_of rs

abbrev actions : List Action
actions = reboot ∷ power_off ∷ halt ∷ []

module _ (o : Os) where
  abbrev pub busybox_halt_poweroff_and_reboot_land_where_they_should : Bool
  busybox_halt_poweroff_and_reboot_land_where_they_should =
      request_eq (classify o o.sigusr1) (shutdown halt)
      && request_eq (classify o o.sigusr2) (shutdown power_off)
      && request_eq (classify o o.sigterm) (shutdown reboot)

  abbrev pub ctrl_alt_del_reboots_and_power_failure_halts : Bool
  ctrl_alt_del_reboots_and_power_failure_halts =
      request_eq (classify o o.sigint) (shutdown reboot)
      && request_eq (classify o o.sigpwr) (shutdown halt)

  abbrev pub every_watched_signal_means_something : Bool
  every_watched_signal_means_something =
      each (λ s. not (request_eq (classify o s) (unknown s))) (watched o)

  abbrev pub every_watched_signal_has_a_name : Bool
  every_watched_signal_has_a_name =
      each (λ s. not (text_eq (name o s) (bytes "an unwatched signal"))) (watched o)

  abbrev pub a_child_signal_is_what_sets_off_the_reaping : Bool
  a_child_signal_is_what_sets_off_the_reaping = request_eq (classify o o.sigchld) child_changed

  abbrev pub children_are_still_watched : Bool
  children_are_still_watched = contains ◌==ℤ◌ (watched o) o.sigchld

  abbrev pub no_signal_is_watched_twice : Bool
  no_signal_is_watched_twice = insert_each ◌==ℤ◌ [] (watched o)

  -- with the number of SIGSTOP, which only this test uses
  abbrev pub the_unblockable_signals_are_left_alone : ℤ → Bool
  the_unblockable_signals_are_left_alone sigstop =
      each (λ s. not (contains ◌==ℤ◌ (watched o) s)) (o.sigkill ∷ sigstop ∷ [])

  -- with the number of SIGWINCH
  abbrev pub an_unwatched_signal_stays_unknown : ℤ → Bool
  an_unwatched_signal_stays_unknown sigwinch = request_eq (classify o sigwinch) (unknown sigwinch)

  abbrev pub each_action_asks_the_kernel_for_something_different : Bool
  each_action_asks_the_kernel_for_something_different =
      insert_each ◌==ℤ◌ []
        (kernel_command o reboot ∷ kernel_command o power_off ∷ kernel_command o halt ∷ [])

  abbrev pub the_kernel_commands_are_the_ones_we_mean : Bool
  the_kernel_commands_are_the_ones_we_mean =
      kernel_command o reboot ==ℤ o.rb_autoboot
      && kernel_command o power_off ==ℤ o.rb_power_off
      && kernel_command o halt ==ℤ o.rb_halt_system

  abbrev pub nothing_but_a_shutdown_signal_brings_the_machine_down : Bool
  nothing_but_a_shutdown_signal_brings_the_machine_down =
      signals_eq (keep (λ s. is_shutdown (classify o s)) (watched o))
        (o.sigterm ∷ o.sigint ∷ o.sigusr1 ∷ o.sigusr2 ∷ o.sigpwr ∷ [])

  abbrev classify_each : List ℤ → List Request
  classify_each [] = []
  classify_each (s ∷ ss) = classify o s ∷ classify_each ss

  abbrev pub every_action_is_reachable_from_a_signal : Bool
  every_action_is_reachable_from_a_signal =
      each (contains action_eq (actions_of (classify_each (watched o)))) actions

-- No two of some numbers are the same.
abbrev pub Apart : List ℤ → Type 0
Apart [] = Unit
Apart (s ∷ ss) = All (λ t. ((s ==ℤ t) ≡ false) × ((t ==ℤ s) ≡ false)) ss × Apart ss

abbrev pub each_action_is_named_after_the_command_that_asks_for_it : Bool
each_action_is_named_after_the_command_that_asks_for_it =
    text_eq (Actions.name reboot) (bytes "reboot")
    && text_eq (Actions.name power_off) (bytes "poweroff")
    && text_eq (Actions.name halt) (bytes "halt")

names_pass : each_action_is_named_after_the_command_that_asks_for_it ≡ true
unfolding Actions.name bytes text_eq
names_pass = refl
