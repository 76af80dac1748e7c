-- ===== src/Console.antt =====
-- zevinit/src/console.rs: the device nodes and pid 1's own terminal.
use zevory_linux.Prelude.{ℕ, List, [], ◌∷◌, ◌++◌, Bool, true, false, not, pos, ◌==ℤ◌}
use zevory_linux.Os.{Text, Call, Os, M, pure, ◌>>=◌, ◌>>◌, call}
use zevory_linux.Sys
use zevory_linux.Sys.Io.{bytes, Result, ok, err, display_error, attempt}
use zevory_linux.Log

pub record Node : Type 0 where
  pub path : Text
  pub mode : ℕ
  pub major : ℕ
  pub minor : ℕ

abbrev node : Text → ℕ → ℕ → ℕ → Node
node p mo ma mi = record { path = p; mode = mo; major = ma; minor = mi }

unfoldable pub nodes : List Node
nodes =
    node (bytes "/dev/null") 0o666 1 3
    ∷ node (bytes "/dev/console") 0o600 5 1
    ∷ node (bytes "/dev/tty") 0o666 5 0
    ∷ []

module _ (o : Os) where
  -- `Path::new(path).exists()`
  unfoldable pub exists : Text → M Bool
  exists path = do r ← call o (Call.path_exists path); pure (not (r.rc ==ℤ pos 0))

  unfoldable pub create_node : Node → M Unit
  create_node n = do
    r ← Sys.mknod_char o n.path n.mode n.major n.minor
    elim r [
      | ok _ ↦ pure tt
      | err e ↦
          Log.warn o (bytes "could not create " ++ (n.path ++ (bytes ": " ++ display_error o e)))
    ]

  -- the loop of `ensure_nodes`
  unfoldable pub ensure_each : List Node → M Unit
  ensure_each [] = pure tt
  ensure_each (n ∷ ns) = do
    there ← exists n.path
    elim there [ true ↦ ensure_each ns | false ↦ (do create_node n; ensure_each ns) ]

  unfoldable pub ensure_nodes : M Unit
  ensure_nodes = ensure_each nodes

  unfoldable pub attach_stdio : M (Result Unit)
  attach_stdio = attempt (Sys.open_rw o (bytes "/dev/console")) λ fd. Sys.dup2_stdio o fd

  unfoldable pub take_ctty : M Unit
  take_ctty = do
    r ← Sys.take_ctty o o.stdin_fileno
    elim r [
      | ok _ ↦ pure tt
      | err e ↦ Log.warn o (
          bytes "no controlling terminal ("
          ++ (display_error o e ++ bytes "), job control stays off"))
    ]
