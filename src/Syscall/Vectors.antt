-- ===== src/Syscall/Vectors.antt =====
-- The cases `flock` to `nfsservctl` of `do_syscall` in proj/sparc-linux/syscall.c. `unlock_iovec` only
-- frees the vector.
use sparcy.Base.{ℕ, List, [], ◌∷◌, Option, none, some, neg32}
use sparcy.Nr
use sparcy.Guest.{Host, HostFn, M, ◌>>=◌, pure, gets}
use sparcy.Errno.{host_to_target_errno}
use sparcy.Errno.Target
use sparcy.Convert.Iovec.{Iovec, lock_iovec, iovec_fields}
use sparcy.Syscall.Defs.{Args, Handler, Case, missing, sys}

module _ (host : Host) where
  -- `f(arg1, vec, arg3)` at the vector, or the error that `lock_iovec` left.
  unfoldable pub with_vector : HostFn → Args → Option (List Iovec) → M ℕ
  unfolding ◌>>=◌ sys gets
  with_vector f a none = gets (λ s. neg32 (host_to_target_errno s.errno))
  with_vector f a (some vec) = sys host f (a.arg1 ∷ a.arg3 ∷ iovec_fields vec)

  -- `readv` and `writev`
  unfoldable pub vector_transfer : HostFn → Handler
  unfolding ◌>>=◌ lock_iovec with_vector
  vector_transfer f a = do vec ← lock_iovec host a.arg2 a.arg3; with_vector f a vec

  unfoldable pub vector_cases : List Case
  unfolding vector_transfer sys pure
  vector_cases =
      (Nr.flock, λ a. sys host HostFn.flock (a.arg1 ∷ a.arg2 ∷ []))
      ∷ (Nr.readv, vector_transfer HostFn.readv)
      ∷ (Nr.writev, vector_transfer HostFn.writev)
      ∷ (Nr.getsid, λ a. sys host HostFn.getsid (a.arg1 ∷ []))
      ∷ (Nr.fdatasync, λ a. sys host HostFn.fdatasync (a.arg1 ∷ []))
      ∷ (Nr.sysctl, λ a. pure (neg32 Target.enotdir))
      ∷ missing Nr.sched_getaffinity
      ∷ missing Nr.sched_setaffinity
      ∷ missing Nr.sched_setparam
      ∷ missing Nr.sched_getparam
      ∷ missing Nr.sched_setscheduler
      ∷ (Nr.sched_getscheduler, λ a. sys host HostFn.sched_getscheduler (a.arg1 ∷ []))
      ∷ (Nr.sched_yield, λ a. sys host HostFn.sched_yield ([]))
      ∷ (Nr.sched_get_priority_max, λ a. sys host HostFn.sched_get_priority_max (a.arg1 ∷ []))
      ∷ (Nr.sched_get_priority_min, λ a. sys host HostFn.sched_get_priority_min (a.arg1 ∷ []))
      ∷ missing Nr.sched_rr_get_interval
      ∷ missing Nr.nanosleep
      ∷ missing Nr.query_module
      ∷ missing Nr.nfsservctl
      ∷ []
