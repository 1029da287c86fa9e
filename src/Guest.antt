-- ===== src/Guest.antt =====
-- The state of the emulation of proj/sparc-linux/syscall.c, its calls of the host, and the
-- sequencing of its statements.
mod Calls
mod Run
mod Access
pub mod Keeps
pub mod Valid
pub use Calls.{HostFn, HostCall, Reply, Host}
pub use Run.{Target, Sys, Flow, next, efault, unimplemented, hang, M, ◌>>◌, bind_flow}
unfoldable pub use Run.{
  pure, raise_efault, raise_unimplemented, loop_forever, gets, set_errno, write_memory,
  write_target, ◌>>=◌, g2h, lock_user, host_call, get_errno, is_error,
}
unfoldable pub use Access.{
  get_long, put_half, put_long, put_quad, swap_load, swap_store, swap_stores, get_user_sal,
  put_user_ual, put_user_u16, put_user_s64,
}
