-- ===== src/Errno/Target.antt =====
-- The error numbers of proj/sparc-linux/errno_defs.h that the emulation returns to the guest.
mod Lower
mod Upper
pub use Lower.*
pub use Upper.*
