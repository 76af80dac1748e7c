-- ===== src/Log.antt =====
-- zevinit/src/log.rs: lines for `/dev/kmsg`, with stderr behind it. The static `KMSG` is
-- `Process.kmsg`.
pub mod Quiet
pub mod Opening
pub mod Fallback
use zevory_linux.Prelude.{ℕ, ◌++◌, Bool, true, false, ℤ, negsuc, ◌==ℤ◌}
use zevory_linux.Os.{Text, Call, Os, M, done, pure, ◌>>=◌, ◌>>◌, call}
use zevory_linux.Sys
use zevory_linux.Sys.{checked}
use zevory_linux.Sys.Io.{bytes, ok, err, display, display_error}

abbrev pub not_open_yet : ℤ
not_open_yet = negsuc 0

pub data Level : Type 0 where
  error_level warn_level info_level : Level

unfoldable pub priority : Level → ℕ
priority error_level = 3
priority warn_level = 4
priority info_level = 6

unfoldable pub line_for : Level → Text → Text
line_for level msg =
    bytes "<" ++ (display (priority level) ++ (bytes ">zevinit: " ++ (msg ++ bytes "\n")))

-- `KMSG.load` and `KMSG.store`
unfoldable pub load_kmsg : M ℤ
load_kmsg s = (done s.kmsg, s)

unfoldable pub store_kmsg : ℤ → M Unit
store_kmsg fd s = (done tt, record s { kmsg = fd })

module _ (o : Os) where
  unfoldable pub kmsg : M ℤ
  kmsg = do
    known ← load_kmsg
    elim (known ==ℤ not_open_yet) [
      | false ↦ pure known
      | true ↦ (do
        opened ← Sys.open_append o (bytes "/dev/kmsg")
        elim opened [ err _ ↦ pure not_open_yet | ok fd ↦ (do store_kmsg fd; pure fd) ])
    ]

  unfoldable pub write_to_kmsg : Level → Text → M Bool
  write_to_kmsg level msg = do
    fd ← kmsg
    elim (fd ==ℤ not_open_yet) [
      | true ↦ pure false
      | false ↦ Sys.write_fd o fd (line_for level msg)
    ]

  unfoldable pub emit : Level → Text → M Unit
  emit level msg = do
    written ← write_to_kmsg level msg
    elim written [
      | true ↦ pure tt
      | false ↦ (do
        Sys.write_fd o o.stderr_fileno (bytes "zevinit: " ++ (msg ++ bytes "\n"))
        pure tt)
    ]

  unfoldable pub error : Text → M Unit
  error = emit error_level

  unfoldable pub warn : Text → M Unit
  warn = emit warn_level

  unfoldable pub info : Text → M Unit
  info = emit info_level

  abbrev knob : Text
  knob = bytes "/proc/sys/kernel/printk_devkmsg"

  unfoldable pub keep_every_message : M Unit
  keep_every_message = do
    r ← call o (Call.write_file knob (bytes "on\n"))
    elim (checked r) [
      | ok _ ↦ pure tt
      | err e ↦ warn (
          knob
          ++ (bytes " is not writable ("
              ++ (display_error o e ++ bytes "), the kernel will drop our log lines in bursts")))
    ]

  unfoldable pub to_console : Text → M Unit
  to_console msg = do Sys.write_fd o o.stdout_fileno msg; pure tt
