-- ===== src/Errno/Host.antt =====
-- The host's error numbers: Linux's asm-generic/errno.h, from which the C library takes them.
mod Lower
mod Upper
pub use Lower.*
pub use Upper.*
