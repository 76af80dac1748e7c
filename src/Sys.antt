-- ===== src/Sys.antt =====
-- zevinit/src/sys.rs: the thin wrappers around libc. Each is a sequence of `call`s with the
-- wrapper's tests on the result. `-1` is `negsuc 0`.
pub mod Io
mod Files
mod Processes
pub mod Output
pub mod Written
pub mod Devices
unfoldable pub use Files.*
unfoldable pub use Processes.*
unfoldable pub use Output.*
