-- ===== src/Syscall/Signals.antt =====
-- The cases `times` to `sethostname` of `do_syscall` in proj/sparc-linux/syscall.c.
use sparcy.Base.{ℕ, List, [], ◌∷◌, ◌==◌, if◌then◌else◌, sext64}
use sparcy.Nr
use sparcy.Guest.{
  Host, HostFn, M, ◌>>=◌, ◌>>◌, pure, lock_user, host_call, get_errno, is_error, swap_stores,
}
use sparcy.Convert.Limits.{fields}
use sparcy.Convert.Time.{host_to_target_clock_t}
use sparcy.Syscall.Defs.{Handler, Case, missing, sys, with_path}

module _ (host : Host) where
  -- The times are stored also where the call has failed.
  unfoldable pub store_tms : ℕ → List ℕ → M (Unit {0})
  unfolding ◌>>=◌ lock_user swap_stores
  store_tms addr tms =
      if addr == 0 then pure tt else (lock_user addr >>= λ p. swap_stores p (fields 4 tms))

  unfoldable pub process_times : Handler
  unfolding ◌>>=◌ host_call get_errno store_tms is_error host_to_target_clock_t
  process_times a = do
    r ← host_call host HostFn.times []
    ret ← get_errno r.result
    store_tms a.arg1 r.out
    pure (if is_error ret then ret else host_to_target_clock_t ret)

  unfoldable dup3_cases : List Case
  unfolding process_times sys with_path
  dup3_cases =
      missing Nr.dup3
      ∷ (Nr.getppid, λ a. sys host HostFn.getppid ([]))
      ∷ (Nr.getpgrp, λ a. sys host HostFn.getpgrp ([]))
      ∷ (Nr.setsid, λ a. sys host HostFn.setsid ([]))
      ∷ missing Nr.sigaction
      ∷ missing Nr.rt_sigaction
      ∷ missing Nr.sgetmask
      ∷ missing Nr.ssetmask
      ∷ missing Nr.sigprocmask
      ∷ missing Nr.rt_sigprocmask
      ∷ missing Nr.sigpending
      ∷ missing Nr.rt_sigpending
      ∷ missing Nr.sigsuspend
      ∷ missing Nr.rt_sigsuspend
      ∷ missing Nr.rt_sigtimedwait
      ∷ missing Nr.rt_sigqueueinfo
      ∷ missing Nr.sigreturn
      ∷ missing Nr.rt_sigreturn
      ∷ (
        Nr.sethostname,
        λ a. with_path host a.arg1 HostFn.sethostname (λ p. p ∷ sext64 a.arg2 ∷ []),
      )
      ∷ []

  unfoldable pub signal_cases : List Case
  unfolding dup3_cases process_times sys with_path
  signal_cases =
      (Nr.times, process_times)
      ∷ missing Nr.signal
      ∷ missing Nr.acct
      ∷ missing Nr.umount2
      ∷ missing Nr.ioctl
      ∷ missing Nr.fcntl
      ∷ (Nr.setpgid, λ a. sys host HostFn.setpgid (a.arg1 ∷ a.arg2 ∷ []))
      ∷ (Nr.umask, λ a. sys host HostFn.umask (a.arg1 ∷ []))
      ∷ (Nr.chroot, λ a. with_path host a.arg1 HostFn.chroot (λ p. p ∷ []))
      ∷ missing Nr.ustat
      ∷ (Nr.dup2, λ a. sys host HostFn.dup2 (a.arg1 ∷ a.arg2 ∷ []))
      ∷ dup3_cases
