-- ===== src/Syscall/Rest.antt =====
-- The cases `pivot_root` to `unshare` of `do_syscall` in proj/sparc-linux/syscall.c.
use sparcy.Base.{List, [], ◌∷◌, sext64}
use sparcy.Nr
use sparcy.Guest.{Host, HostFn, pure, get_errno}
use sparcy.Syscall.Defs.{Case, missing, sys}

module _ (host : Host) where
  unfoldable eventfd_cases : List Case
  unfolding sys get_errno pure
  eventfd_cases =
      missing Nr.eventfd
      ∷ missing Nr.eventfd2
      ∷ missing Nr.fallocate
      ∷ missing Nr.epoll_create1
      ∷ missing Nr.epoll_pwait
      ∷ missing Nr.prlimit64
      ∷ missing Nr.timer_create
      ∷ missing Nr.timer_settime
      ∷ missing Nr.timer_gettime
      ∷ missing Nr.timer_getoverrun
      ∷ missing Nr.timer_delete
      ∷ missing Nr.timerfd_gettime
      ∷ missing Nr.timerfd_settime
      ∷ missing Nr.setns
      ∷ (Nr.unshare, λ a. sys host HostFn.unshare (a.arg1 ∷ []))
      ∷ []

  unfoldable tkill_cases : List Case
  unfolding eventfd_cases sys get_errno pure
  tkill_cases =
      missing Nr.tkill
      ∷ missing Nr.tgkill
      ∷ missing Nr.set_robust_list
      ∷ missing Nr.get_robust_list
      ∷ missing Nr.utimensat
      ∷ missing Nr.futex
      ∷ missing Nr.inotify_init1
      ∷ missing Nr.mq_open
      ∷ missing Nr.mq_unlink
      ∷ missing Nr.mq_timedsend
      ∷ missing Nr.mq_timedreceive
      ∷ missing Nr.mq_getsetattr
      ∷ (Nr.tee, λ a. sys host HostFn.tee (a.arg1 ∷ a.arg2 ∷ sext64 a.arg3 ∷ a.arg4 ∷ []))
      ∷ eventfd_cases

  unfoldable pub rest_cases : List Case
  unfolding tkill_cases sys get_errno pure
  rest_cases =
      missing Nr.pivot_root
      ∷ missing Nr.mincore
      ∷ (Nr.madvise, λ a. get_errno 0)
      ∷ missing Nr.fcntl64
      ∷ (Nr.getpagesize, λ a. pure 4096)
      ∷ (Nr.gettid, λ a. sys host HostFn.gettid ([]))
      ∷ missing Nr.readahead
      ∷ missing Nr.getdomainname
      ∷ missing Nr.clock_gettime
      ∷ missing Nr.clock_getres
      ∷ missing Nr.clock_nanosleep
      ∷ missing Nr.set_tid_address
      ∷ tkill_cases
