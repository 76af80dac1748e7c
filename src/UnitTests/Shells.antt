-- ===== src/UnitTests/Shells.antt =====
-- The tests of zevinit/src/shell.rs.
use zevory_linux.Prelude.{
  ℕ, zero, suc, ◌-◌, ◌≡◌, refl, [], ◌∷◌, Bool, true, false, not, ◌&&◌, ltb, Option, none, some,
  length, get_elem?,
}
use zevory_linux.Sys.Io.{bytes}
use zevory_linux.Os.{Text}
use zevory_linux.Proc.{Spec}
use zevory_linux.Shell.{
  Rescue, Verdict, keep_trying, moved_on, out_of_options, over, shell, failed, survived, candidates,
  strikes_before_moving_on,
}
use zevory_linux.UnitTests.{text_eq, ends_with, each, expect}

abbrev first : Spec
first = record {
  name = bytes "shell";
  path = bytes "/first";
  argv = bytes "first" ∷ [];
  wants_own_session = true;
}

abbrev second : Spec
second = record {
  name = bytes "shell";
  path = bytes "/second";
  argv = bytes "second" ∷ [];
  wants_own_session = true;
}

abbrev two : Option Rescue
two = over (first ∷ second ∷ [])

-- `assert_eq!` of the path of the shell in use
unfoldable pub uses : Text → Rescue → Bool
unfolding shell
uses path r = expect (shell r) λ s. text_eq s.path path

-- `assert_eq!(rescue.failed(), Verdict::KeepTrying)`, as often as is said
unfoldable pub keeps_trying : ℕ → Rescue → (Rescue → Bool) → Bool
keeps_trying zero r then_ = then_ r
keeps_trying (suc n) r then_ = elim (failed r) [
  | some (keep_trying, r') ↦ keeps_trying n r' then_
  | some (moved_on s, r') ↦ false
  | some (out_of_options, r') ↦ false
  | none ↦ false
]

-- the last verdict of some failures
unfoldable pub fail_on : ℕ → Verdict → Rescue → (Verdict → Rescue → Bool) → Bool
fail_on zero v r then_ = then_ v r
fail_on (suc n) v r then_ = expect (failed r) λ vr. fail_on n vr.0 vr.1 then_

abbrev is_moved_on : Spec → Verdict → Bool
is_moved_on s (moved_on t) = text_eq s.name t.name && text_eq s.path t.path
is_moved_on s _ = false

abbrev is_out_of_options : Verdict → Bool
is_out_of_options out_of_options = true
is_out_of_options _ = false

abbrev chances : ℕ
chances = strikes_before_moving_on

abbrev with_nothing_available_there_is_no_rescue : Bool
with_nothing_available_there_is_no_rescue = elim (over []) [ none ↦ true | some r ↦ false ]

abbrev the_first_candidate_is_the_one_we_start_with : Bool
the_first_candidate_is_the_one_we_start_with = expect two (uses (bytes "/first"))

abbrev a_couple_of_failures_are_not_enough_to_give_up_on_a_shell : Bool
a_couple_of_failures_are_not_enough_to_give_up_on_a_shell =
    expect two λ r. keeps_trying (chances - 1) r (uses (bytes "/first"))

abbrev enough_failures_move_on_to_the_next_shell : Bool
enough_failures_move_on_to_the_next_shell =
    expect two
      λ r. fail_on chances keep_trying r λ v r'. is_moved_on second v && uses (bytes "/second") r'

abbrev surviving_wipes_the_slate : Bool
surviving_wipes_the_slate = expect two λ r.
    fail_on (chances - 1) keep_trying r
      λ v r'. keeps_trying (chances - 1) (survived r') (uses (bytes "/first"))

abbrev the_shell_we_fall_back_to_gets_a_full_set_of_chances : Bool
the_shell_we_fall_back_to_gets_a_full_set_of_chances = expect two λ r.
    fail_on chances keep_trying r λ v r'.
      uses (bytes "/second") r'
      && keeps_trying (chances - 1) r' λ r''. expect (failed r'') λ vr. is_out_of_options vr.0

abbrev running_out_of_shells_is_the_end_of_the_road : Bool
running_out_of_shells_is_the_end_of_the_road =
    expect (over (first ∷ [])) λ r. fail_on chances keep_trying r λ v r'. is_out_of_options v

abbrev every_candidate_passes_its_own_name_as_argv0 : Bool
every_candidate_passes_its_own_name_as_argv0 =
    each (λ s. expect (get_elem? s.argv 0) λ argv0. ends_with s.path argv0) candidates

abbrev every_candidate_gets_its_own_session : Bool
every_candidate_gets_its_own_session = each (λ s. s.wants_own_session) candidates

abbrev the_fallback_is_not_the_same_binary_as_the_first_choice : Bool
the_fallback_is_not_the_same_binary_as_the_first_choice =
    ltb 1 (length candidates)
    && expect (get_elem? candidates 0)
        λ a. expect (get_elem? candidates 1) λ b. not (text_eq a.path b.path)

tests_pass :
    with_nothing_available_there_is_no_rescue && the_first_candidate_is_the_one_we_start_with
      && a_couple_of_failures_are_not_enough_to_give_up_on_a_shell
      && enough_failures_move_on_to_the_next_shell && surviving_wipes_the_slate
      && the_shell_we_fall_back_to_gets_a_full_set_of_chances
      && running_out_of_shells_is_the_end_of_the_road
      && every_candidate_passes_its_own_name_as_argv0 && every_candidate_gets_its_own_session
      && the_fallback_is_not_the_same_binary_as_the_first_choice
    ≡ true
unfolding over keeps_trying fail_on failed survived uses text_eq ends_with each candidates bytes
tests_pass = refl
