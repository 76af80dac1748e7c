-- ===== src/Os.antt =====
-- What zevinit stands on: the kernel, reached through libc and through the file functions of
-- Rust's standard library, and the monad of code that calls it.
-- Nothing of the kernel or of libc is defined here. `Os` is the parameter for both: libc's
-- constants and status macros, and `answer`, what the environment does at each call. `answer` sees
-- everything that was called before, so a statement for every `Os` is one for every behaviour.
pub mod Rules
pub mod History
use zevory_linux.Prelude.{ℕ, List, [], ◌∷◌, ◌++◌, ℤ, Bool, Option, none, some}

-- The bytes of a `str`.
abbrev pub Text : Type 0
Text = List ℕ

-- A `sigset_t`, by the calls that build it.
pub data SigSet : Type 0 where
  emptied filled : SigSet
  added : SigSet → ℤ → SigSet

-- The calls that leave the process, with the arguments that the source gives them.
pub data Call : Type 0 where
  getpid pause sync fork setsid : Call
  mount : Text → Text → Text → ℕ → Option Text → Call
  mknod : Text → ℕ → ℕ → Call
  open_file : Text → ℕ → Call
  dup2 : ℤ → ℤ → Call
  close : ℤ → Call
  ioctl : ℤ → ℤ → ℤ → Call
  reboot : ℤ → Call
  poll : ℤ → ℤ → ℤ → Call
  kill : ℤ → ℤ → Call
  execv : Text → List Text → Call
  waitpid : ℤ → ℤ → Call
  sigprocmask : ℤ → SigSet → Call
  signalfd : ℤ → SigSet → ℤ → Call
  read : ℤ → ℕ → Call
  clock_gettime : ℤ → Call
  write : ℤ → Text → Call
  -- the standard library's `Path::exists`, `create_dir_all`, `fs::write` and `eprintln!`
  path_exists create_dir_all : Text → Call
  write_file : Text → Text → Call
  eprint : Text → Call

-- What a call returns, `errno` after it, and what it leaves where its out pointer points: the
-- status of `waitpid`, the signal number of `read`, the seconds of `clock_gettime`.
pub record Reply : Type 0 where
  pub rc : ℤ
  pub errno : ℤ
  pub out : ℤ

-- `none`: the call never returns, as `execv` and `reboot` where they succeed.
pub record Event : Type 0 where
  pub made : Call
  pub reply : Option Reply

pub record Libc : Type 0 where
  pub sigchld : ℤ
  pub sigterm : ℤ
  pub sigint : ℤ
  pub sigusr1 : ℤ
  pub sigusr2 : ℤ
  pub sigpwr : ℤ
  pub sighup : ℤ
  pub sigkill : ℤ
  pub sigcont : ℤ
  pub ebusy : ℤ
  pub echild : ℤ
  pub eintr : ℤ
  pub rb_disable_cad : ℤ
  pub rb_enable_cad : ℤ
  pub rb_autoboot : ℤ
  pub rb_power_off : ℤ
  pub rb_halt_system : ℤ
  pub o_wronly : ℕ
  pub o_append : ℕ
  pub o_cloexec : ℕ
  pub o_noctty : ℕ
  pub o_rdwr : ℕ
  pub s_ifchr : ℕ
  pub ms_nosuid : ℕ
  pub ms_nodev : ℕ
  pub ms_noexec : ℕ
  pub stdin_fileno : ℤ
  pub stdout_fileno : ℤ
  pub stderr_fileno : ℤ
  pub tiocsctty : ℤ
  pub pollin : ℤ
  pub wnohang : ℤ
  pub sig_block : ℤ
  pub sig_unblock : ℤ
  pub sfd_cloexec : ℤ
  pub clock_monotonic : ℤ
  pub siginfo_size : ℕ
  pub wifexited : ℤ → Bool
  pub wexitstatus : ℤ → ℤ
  pub wifsignaled : ℤ → Bool
  pub wtermsig : ℤ → ℤ
  pub strerror : ℤ → Text

pub record Os : Type 0 where
  pub libc : Libc
  pub open libc use *
  pub answer : List Event → Call → Option Reply

-- What the process keeps between calls: what it called, newest first, and the static `KMSG`.
pub record Process : Type 0 where
  pub trace : List Event
  pub kmsg : ℤ

-- Why a run does not come back to its caller. `parked` is `loop { pause() }`; `out_of_fuel` is a
-- loop that was cut off and says nothing about the code.
pub data Stop : Type 0 where
  exited : ℤ → Stop
  aborted parked never_returned out_of_fuel : Stop

pub data Outcome (A : Type 0) : Type 0 where
  done : A → Outcome A
  stopped : Stop → Outcome A

abbrev pub M : Type 0 → Type 0
M A = Process → Outcome A × Process

unfoldable pub pure : {A : Type 0} → A → M A
pure a s = (done a, s)

unfoldable pub stop : {A : Type 0} → Stop → M A
stop why s = (stopped why, s)

abbrev pub continue : {A B : Type 0} → Outcome A → (A → M B) → M B
continue (done a) f s = f a s
continue (stopped why) f s = (stopped why, s)

infixl 5 ◌>>=◌ ◌>>◌
unfoldable pub ◌>>=◌ : {A B : Type 0} → M A → (A → M B) → M B
unfolding pure stop
◌>>=◌ m f s = let (r, s') = m s in continue r f s'

abbrev pub ◌>>◌ : {A B : Type 0} → M A → M B → M B
m >> n = m >>= λ _. n

-- `if b { m }`
abbrev pub when : Bool → M Unit → M Unit
when Bool.true m = m
when Bool.false m = pure tt

abbrev answered : Option Reply → Outcome Reply
answered none = stopped never_returned
answered (some r) = done r

abbrev pub event : Call → Option Reply → Event
event c r = record { made = c; reply = r }

unfoldable pub call : Os → Call → M Reply
call o c s = let r = o.answer s.trace c in (answered r, record s { trace = event c r ∷ s.trace })
