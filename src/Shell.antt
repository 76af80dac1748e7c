-- ===== src/Shell.antt =====
-- zevinit/src/shell.rs: which shell to start, and when to give up on it.
-- `usable[at]` panics out of range; `shell` and `failed` are `none` there.
pub mod Chances
use zevory_linux.Prelude.{
  ℕ, ◌+◌, ◌%◌, ◌^◌, List, [], ◌∷◌, ◌++◌, Bool, true, false, Option, none, some, length, get_elem?,
  ltb, leb, if◌then◌else◌,
}
use zevory_linux.Os.{Os, M, pure, ◌>>=◌}
use zevory_linux.Sys.Io.{bytes}
use zevory_linux.Proc.{Spec, is_available}

abbrev pub strikes_before_moving_on : ℕ
strikes_before_moving_on = 3

unfoldable pub candidates : List Spec
candidates =
    record {
      name = bytes "shell";
      path = bytes "/bin/sh";
      argv = bytes "sh" ∷ [];
      wants_own_session = true;
    }
    ∷ record {
      name = bytes "shell";
      path = bytes "/bin/busybox";
      argv = bytes "busybox" ∷ bytes "sh" ∷ [];
      wants_own_session = true;
    }
    ∷ []

pub data Verdict : Type 0 where
  keep_trying out_of_options : Verdict
  moved_on : Spec → Verdict

pub record Rescue : Type 0 where
  pub usable : List Spec
  pub at : ℕ
  pub strikes : ℕ  -- u32

unfoldable pub over : List Spec → Option Rescue
over [] = none
over (s ∷ ss) = some (record { usable = s ∷ ss; at = 0; strikes = 0 })

unfoldable pub shell : Rescue → Option Spec
shell r = get_elem? r.usable r.at

unfoldable pub survived : Rescue → Rescue
survived r = record r { strikes = 0 }

-- `self.at += 1; self.strikes = 0; MovedOn(self.shell())`
unfoldable pub move_on : Rescue → Option (Verdict × Rescue)
unfolding shell
move_on r =
    let r' = record r { at = r.at + 1; strikes = 0 } in
    elim (shell r') [ none ↦ none | some s ↦ some (moved_on s, r') ]

unfoldable pub failed : Rescue → Option (Verdict × Rescue)
unfolding move_on
failed r =
    let r' = record r { strikes = (r.strikes + 1) % 2 ^ 32 } in
    if ltb r'.strikes strikes_before_moving_on
    then some (keep_trying, r')
    else if leb (length r'.usable) (r'.at + 1)
    then some (out_of_options, r')
    else move_on r'

module _ (o : Os) where
  -- `candidates.iter().filter(|s| s.is_available()).collect()`
  unfoldable pub available : List Spec → M (List Spec)
  available [] = pure []
  available (s ∷ ss) = do
    there ← is_available o s
    rest ← available ss
    pure (if there then s ∷ rest else rest)

  unfoldable pub new : List Spec → M (Option Rescue)
  new specs = do usable ← available specs; pure (over usable)
