-- ===== src/Os.antt =====
-- What Go's package syscall defines differently on the systems that the program is built for.
mod System
pub mod Errno
pub mod Flags
pub use System.*
