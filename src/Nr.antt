-- ===== src/Nr.antt =====
-- The system call numbers of proj/sparc-linux/syscall_nr.h to which `do_syscall` has a case.
mod First
mod Second
mod Third
mod Fourth
pub use First.*
pub use Second.*
pub use Third.*
pub use Fourth.*
