-- ===== src/Sys/Output.antt =====
-- zevinit/src/sys.rs: `write_fd`.
use zevory_linux.Prelude.{
  ℕ, zero, suc, ◌+◌, Bool, true, false, ℤ, is_positive, pos_part, ltb, length, drop,
}
use zevory_linux.Os.{Text, Call, Os, M, pure, stop, out_of_fuel, ◌>>=◌, call}

module _ (o : Os) where
  -- The loop of `write_fd`, `written` bytes in. A result of `write` is an `ssize_t` and a length is
  -- at most `isize::MAX`, so `done += n as usize` does not wrap.
  unfoldable pub write_from : ℕ → ℤ → Text → ℕ → M Bool
  write_from zero fd text written = stop out_of_fuel
  write_from (suc fuel) fd text written = elim (ltb written (length text)) [
    | false ↦ pure true
    | true ↦ (do
      r ← call o (Call.write fd (drop written text))
      elim (is_positive r.rc) [
        | false ↦ pure false
        | true ↦ write_from fuel fd text (written + pos_part r.rc)
      ])
  ]

  -- Each round writes a byte at least, so there are no more rounds than bytes.
  unfoldable pub write_fd : ℤ → Text → M Bool
  write_fd fd text = write_from (suc (length text)) fd text 0
