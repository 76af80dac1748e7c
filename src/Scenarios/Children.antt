-- ===== src/Scenarios/Children.antt =====
-- Two shells to choose from and a table with one of them alive, and what becomes of them.
use zevory_linux.Prelude.{
  keep, arith, ◌≤◌, ◌+◌, ◌≡◌, refl, List, [], ◌∷◌, true, none, some, pos, ◌==ℤ◌,
}
use zevory_linux.Sys.Io.{bytes}
use zevory_linux.Proc.{
  Table, Entry, Spec, running, exited, killed, is_running, is_live, finish, running_count,
}
use zevory_linux.Proc.Entries.{find_live, Distinct, finish_once}
use zevory_linux.Shell.{over, failed, out_of_options}
use zevory_linux.Shell.Chances.{fails, three_chances_each}

abbrev pub busybox : Spec
busybox = record {
  name = bytes "shell";
  path = bytes "/bin/busybox";
  argv = bytes "busybox" ∷ bytes "sh" ∷ [];
  wants_own_session = true;
}

abbrev pub two_shells : List Spec
two_shells =
    record {
      name = bytes "shell";
      path = bytes "/bin/sh";
      argv = bytes "sh" ∷ [];
      wants_own_session = true;
    }
    ∷ busybox
    ∷ []

abbrev alive : Entry
alive = record {
  name = bytes "shell";
  pid = pos 100;
  state = running;
  started_at = 7;
  owns_session = true;
}

abbrev ended : Entry
ended = record {
  name = bytes "shell";
  pid = pos 100;
  state = exited (pos 0);
  started_at = 7;
  owns_session = true;
}

abbrev pub one_shell : Table
one_shell = alive ∷ []

pub one_shell-running_count : running_count one_shell ≤ 1
unfolding running_count keep is_running
one_shell-running_count = omega arith

one_shell-Distinct : Distinct one_shell
unfolding find_live
one_shell-Distinct = ((λ _. refl), tt)

finish-one_shell : finish (pos 100) (exited (pos 0)) one_shell ≡ some (alive, ended ∷ [])
unfolding finish is_live ◌==ℤ◌ is_running
finish-one_shell = refl

finish_once_example :
    (find_live (pos 100) one_shell ≡ some alive)
    × (running_count (ended ∷ []) + 1 ≡ running_count one_shell)
    × (find_live (pos 7) (ended ∷ []) ≡ find_live (pos 7) one_shell)
    × (finish (pos 100) (killed (pos 9)) (ended ∷ []) ≡ none)
unfolding is_running
finish_once_example =
    finish_once (pos 100) (pos 7) (exited (pos 0)) (killed (pos 9)) one_shell (ended ∷ []) alive
      one_shell-Distinct refl finish-one_shell λ e. cc

over_two : over two_shells ≡ some (record { usable = two_shells; at = 0; strikes = 0 })
unfolding over
over_two = refl

-- The fifth failure in a row is the last one but one.
three_chances_each_example :
    (fails 5 (record { usable = two_shells; at = 0; strikes = 0 })
      ≡ some (record { usable = two_shells; at = 1; strikes = 2 }))
    × (failed (record { usable = two_shells; at = 1; strikes = 2 })
        ≡ some (out_of_options, record { usable = two_shells; at = 1; strikes = 3 }))
three_chances_each_example =
    three_chances_each two_shells (record { usable = two_shells; at = 0; strikes = 0 }) 5 over_two
