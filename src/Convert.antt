-- ===== src/Convert.antt =====
-- The conversions between the guest's structures and the host's in proj/sparc-linux/syscall.c.
pub mod Uid
pub mod Numbers
pub mod Time
pub mod FdSet
pub mod Limits
pub mod Stat
pub mod Iovec
pub mod Keeps
pub mod Uncalled
