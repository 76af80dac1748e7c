-- ===== src/Sys/Processes.antt =====
-- zevinit/src/sys.rs: processes, signals, the clock and the way down.
use zevory_linux.Prelude.{
  ℕ, List, [], ◌∷◌, Bool, true, false, not, Option, none, some, ℤ, pos, negsuc, ◌==ℤ◌, is_negative,
  is_positive, as_u64, negate, if◌then◌else◌, ◌||◌,
}
use zevory_linux.Os.{
  Text, SigSet, emptied, filled, added, Call, Reply, Os, M, pure, stop, exited, ◌>>=◌, ◌>>◌, call,
}
use zevory_linux.Sys.Io.{bytes, IoError, simple, invalid_input, unexpected_eof, Result, ok, err}
use zevory_linux.Sys.Files.{check, checked_fd, cstr, last_os_error}

pub data Fork : Type 0 where
  parent : ℤ → Fork
  child : Fork

pub data Reaped : Type 0 where
  reaped_child : ℤ → ℤ → Reaped
  still_running no_children_left : Reaped

-- `exec`'s loop over the arguments
unfoldable pub cstrs : List Text → Result (List Text)
unfolding cstr
cstrs [] = ok []
cstrs (a ∷ as') = elim (cstr a) [
  | err e ↦ err e
  | ok c ↦ elim (cstrs as') [ err e ↦ err e | ok cs ↦ ok (c ∷ cs) ]
]

unfoldable pub sigset_from : SigSet → List ℤ → SigSet
sigset_from set [] = set
sigset_from set (s ∷ signals) = sigset_from (added set s) signals

unfoldable pub sigset_of : List ℤ → SigSet
unfolding sigset_from
sigset_of = sigset_from emptied

module _ (o : Os) where
  unfoldable pub getpid : M ℤ
  getpid = do r ← call o Call.getpid; pure r.rc

  unfoldable pub pause : M Unit
  pause = do call o Call.pause; pure tt

  unfoldable pub disable_ctrl_alt_del : M (Result Unit)
  disable_ctrl_alt_del = check o (Call.reboot o.rb_disable_cad)

  unfoldable pub enable_ctrl_alt_del : M (Result Unit)
  enable_ctrl_alt_del = check o (Call.reboot o.rb_enable_cad)

  unfoldable pub poll_readable : ℤ → ℤ → M (Result Bool)
  poll_readable fd millis = do
    r ← call o (Call.poll fd o.pollin millis)
    pure (
        if r.rc ==ℤ negsuc 0
        then err (last_os_error r)
        else if r.rc ==ℤ pos 0
        then ok false
        else ok true)

  unfoldable pub signal_group : ℤ → ℤ → M Unit
  signal_group leader signal = do call o (Call.kill (negate leader) signal); pure tt

  unfoldable pub signal_everyone : ℤ → M Unit
  signal_everyone signal = do call o (Call.kill (negsuc 0) signal); pure tt

  unfoldable pub flush_filesystems : M Unit
  flush_filesystems = do call o Call.sync; pure tt

  unfoldable pub hand_over_to_kernel : ℤ → M IoError
  hand_over_to_kernel command = do r ← call o (Call.reboot command); pure (last_os_error r)

  -- a path with a NUL has an error of its own
  unfoldable pub exec : Text → List Text → M IoError
  exec path args = elim (cstr path) [
    | err _ ↦ pure (simple invalid_input (bytes "nul byte in path"))
    | ok cpath ↦ elim (cstrs args) [
      | err e ↦ pure e
      | ok argv ↦ (do r ← call o (Call.execv cpath argv); pure (last_os_error r))
    ]
  ]

  unfoldable pub fork : M (Result Fork)
  fork = do
    r ← call o Call.fork
    pure (
        if r.rc ==ℤ negsuc 0
        then err (last_os_error r)
        else if r.rc ==ℤ pos 0
        then ok child
        else ok (parent r.rc))

  unfoldable pub exit_child : {A : Type 0} → ℤ → M A
  exit_child code = stop (exited code)

  -- what a reply of `waitpid` says
  unfoldable pub reaped_of : Reply → Reaped
  reaped_of r =
      if is_positive r.rc
      then reaped_child r.rc r.out
      else if r.rc ==ℤ pos 0 || not (r.errno ==ℤ o.echild)
      then still_running
      else no_children_left

  unfoldable pub reap_one : M Reaped
  reap_one = do r ← call o (Call.waitpid (negsuc 0) o.wnohang); pure (reaped_of r)

  unfoldable pub exit_code : ℤ → Option ℤ
  exit_code status = if o.wifexited status then some (o.wexitstatus status) else none

  unfoldable pub termination_signal : ℤ → Option ℤ
  termination_signal status = if o.wifsignaled status then some (o.wtermsig status) else none

  unfoldable pub block_signals : List ℤ → M (Result Unit)
  block_signals signals = check o (Call.sigprocmask o.sig_block (sigset_of signals))

  unfoldable pub unblock_all_signals : M (Result Unit)
  unblock_all_signals = check o (Call.sigprocmask o.sig_unblock filled)

  unfoldable pub signal_fd : List ℤ → M (Result ℤ)
  signal_fd signals = do
    r ← call o (Call.signalfd (negsuc 0) (sigset_of signals) o.sfd_cloexec)
    pure (checked_fd r)

  -- the reply of the `read` of a `signalfd_siginfo`
  unfoldable pub signal_read : Reply → Result ℤ
  signal_read r =
      if is_negative r.rc
      then err (last_os_error r)
      else if r.rc ==ℤ pos o.siginfo_size
      then ok r.out
      else err (simple unexpected_eof (bytes "short read from signalfd"))

  unfoldable pub read_signal : ℤ → M (Result ℤ)
  read_signal fd = do r ← call o (Call.read fd o.siginfo_size); pure (signal_read r)

  unfoldable pub monotonic_secs : M ℕ
  monotonic_secs = do r ← call o (Call.clock_gettime o.clock_monotonic); pure (as_u64 r.out)
