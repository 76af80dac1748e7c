-- ===== src/Scenarios/Linux.antt =====
-- A concrete environment for runs of the model: the constants of x86_64 Linux with musl, and
-- kernels on which everything works, one shell is started and one signal arrives.
use zevory_linux.Prelude.{
  min, ℕ, ◌/◌, ◌%◌, List, not, ◌&&◌, Option, none, some, ℤ, pos, negsuc, ◌==ℤ◌, ◌==◌, length,
  if◌then◌else◌, pos_part,
}
use zevory_linux.Os.{Call, Reply, Event, Libc, Os}
use zevory_linux.Sys.Io.{bytes}
use zevory_linux.Power.Silence.{polls}

-- The status words of `waitpid`, which are not negative.
abbrev low7 : ℤ → ℕ
low7 status = pos_part status % 128

abbrev pub linux : Libc
linux = record {
  sigchld = pos 17;
  sigterm = pos 15;
  sigint = pos 2;
  sigusr1 = pos 10;
  sigusr2 = pos 12;
  sigpwr = pos 30;
  sighup = pos 1;
  sigkill = pos 9;
  sigcont = pos 18;
  ebusy = pos 16;
  echild = pos 10;
  eintr = pos 4;
  rb_disable_cad = pos 0;
  rb_enable_cad = pos 0x89ab_cdef;
  rb_autoboot = pos 0x0123_4567;
  rb_power_off = pos 0x4321_fedc;
  rb_halt_system = pos 0xcdef_0123;
  o_wronly = 1;
  o_append = 0x400;
  o_cloexec = 0x8_0000;
  o_noctty = 0x100;
  o_rdwr = 2;
  s_ifchr = 0x2000;
  ms_nosuid = 2;
  ms_nodev = 4;
  ms_noexec = 8;
  stdin_fileno = pos 0;
  stdout_fileno = pos 1;
  stderr_fileno = pos 2;
  tiocsctty = pos 0x540e;
  pollin = pos 1;
  wnohang = pos 1;
  sig_block = pos 0;
  sig_unblock = pos 1;
  sfd_cloexec = pos 0x8_0000;
  clock_monotonic = pos 1;
  siginfo_size = 128;
  wifexited = λ status. low7 status == 0;
  wexitstatus = λ status. pos (pos_part status / 256 % 256);
  wifsignaled = λ status. not (low7 status == 0) && not (low7 status == 127);
  wtermsig = λ status. pos (low7 status);
  strerror = λ e. bytes "error";
}

abbrev pub returns : ℤ → ℤ → ℤ → Option Reply
returns rc errno out = some (record { rc = rc; errno = errno; out = out })

abbrev pub succeeds : Option Reply
succeeds = returns (pos 0) (pos 0) (pos 0)

-- The machine restarts at the command for it, and takes no other as one to go down.
abbrev rebooting : ℤ → Option Reply
rebooting c = if c ==ℤ linux.rb_autoboot then none else succeeds

-- A kernel that answers the same at all times: `signal` is always pending, and no child ever ends.
-- Only its clock goes on, by a second every ten polls, until it has no room for more.
abbrev pub steady : ℤ → List Event → Call → Option Reply
steady signal t Call.getpid = returns (pos 1) (pos 0) (pos 0)
steady signal t Call.fork = returns (pos 100) (pos 0) (pos 0)
steady signal t (Call.poll _ _ _) = returns (pos 1) (pos 0) (pos 0)
steady signal t (Call.read _ _) = returns (pos 128) (pos 0) signal
steady signal t (Call.waitpid _ _) = returns (negsuc 0) (pos 10) (pos 0)
steady signal t (Call.write _ text) = returns (pos (length text)) (pos 0) (pos 0)
steady signal t (Call.open_file _ _) = returns (pos 3) (pos 0) (pos 0)
steady signal t (Call.signalfd _ _ _) = returns (pos 4) (pos 0) (pos 0)
steady signal t (Call.path_exists _) = returns (pos 1) (pos 0) (pos 0)
steady signal t (Call.clock_gettime _) =
    returns (pos 0) (pos 0) (pos (min (polls t / 10) 0xffff_ffff_ffff_ffff))
steady signal t (Call.reboot c) = rebooting c
steady signal t _ = succeeds

abbrev pub steady_os : ℤ → Os
steady_os signal = record { libc = linux; answer = steady signal }
