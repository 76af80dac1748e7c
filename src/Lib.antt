-- ===== src/Lib.antt =====
-- ZevInit, the pid 1 of Zevory Linux (zevinit/src/*.rs).
--
-- ZevInit comes up (mounts, device nodes, its terminal), watches signals through a signalfd, keeps
-- one shell alive, reaps every child, and goes down by the action that a signal asks for.
-- Each source file has a module:
--   Sys (sys.rs)         the wrappers around libc, each a sequence of calls
--   Log (log.rs)         log lines for /dev/kmsg, with stderr behind it
--   Mount (mount.rs)     the table of virtual filesystems and mount_all
--   Console (console.rs) device nodes and stdio
--   Proc (proc.rs)       the table of children; spawn on both sides of the fork
--   Shell (shell.rs)     the choice of shells: Rescue
--   Signal (signal.rs)   classify, the signal descriptor, reap_all
--   Power (power.rs)     execute, stop_everything, wait_for_silence
--   Main (main.rs)       main, supervise, give_up_or_fall_back, park
-- Functions keep the source's names. A loop is a function of its own: `write_from` of write_fd,
-- `reap_from` of reap_all, `wait_rounds` of wait_for_silence, `supervise_rounds` of supervise,
-- `pause_forever` of park. The loop of supervise is cut into `respawn`, `wait` and `heed`, and main
-- into `come_up`, `watch_signals`, `keep_ctrl_alt_del`, `find_shell`, `start` and `serve`.
-- Function arguments that Rust changes in place are returned beside the result.
--
-- The proofs stand below the part that they are about or, where they are about the whole life of
-- pid 1, in Lifecycle:
--   Os/Rules             statements about code that calls (Meets, Keeps) and a rule for each way to
--                        build it; Os/History what a run adds to the trace; Log/Quiet
--                        the rules for output and the clock
--   Lifecycle            the automaton of phases and of the calls that each of them allows, with a
--                        module for each stage and Sanction for what must come before a call;
--                        Lasting for what no call undoes, and Watched, which rests on it
--   Sys/Written, Shell/Chances, Main/Shells; Mount/Plain (texts without a NUL), Attempts
--   Proc/Entries, Distinct, Live (the table as a function from pids)
--   Proc/Script, Starts (both sides of a spawn); Main/Backoff (when a shell is started again);
--                        Log/Opening (which descriptor), Fallback (where a line goes)
--   Signal/Reaping, Refinement, Termination, Requests
--   Power/Waiting (what waiting leaves alone), Silence and Ends (fuel), Sending and Protocol (which
--                        signals are sent), Verdicts (what the answer of waiting rests on)
--   UnitTests            the unit tests of the source as functions into Bool, with their results
--   Prelude/Bits, Sys/Devices  the bit operations by parts, and makedev
--   Scenarios            Linux's numbers, a concrete kernel, and the theorems at concrete inputs
--
-- The kernel and libc are not defined but a parameter, `Os` (Os.antt): libc's constants and status
-- macros, and the answer to each call as a function of all calls before it. A theorem for every
-- `Os` holds for every behaviour of the environment. An answer is a result, `errno` and what is
-- written through the out pointer, or that the call never returns. The standard library's file
-- functions and `eprintln!` are such calls too. `M` is the monad of code that calls: it passes on
-- the trace of calls and the static KMSG, and a run gives a result or stops (Stop).
-- `fork` returns once: the answer says which side of it the run follows.
--
-- Integers: `c_int` is ℤ, counts and seconds are ℕ with `% 2 ^ w` where the source can wrap. Text is
-- the list of its bytes; all literals are ASCII.
-- Fuel: reap_all, wait_for_silence, supervise and park take one number that bounds the rounds of
-- each loop; running out of it is a stop of its own, `out_of_fuel`, and for park it is `parked`,
-- since `loop { pause() }` has no end. write_fd gives itself the length of the text as its fuel.
--
-- Not modelled: the message of a panic (only that it is logged and aborts), the scripts, the
-- configuration of the boot loader and of the kernel.
mod Prelude
pub mod Os
pub mod Sys
pub mod Log
pub mod Mount
pub mod Console
pub mod Proc
pub mod Shell
pub mod Signal
pub mod Power
pub mod Main
pub mod Lifecycle
mod UnitTests
mod Scenarios
