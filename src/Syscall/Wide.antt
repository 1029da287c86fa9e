-- ===== src/Syscall/Wide.antt =====
-- The cases `lchown32` to `setfsgid32` of `do_syscall` in proj/sparc-linux/syscall.c.
use sparcy.Base.{List, [], ◌∷◌, if◌then◌else◌, get_or}
use sparcy.Nr
use sparcy.Guest.{Host, HostFn, ◌>>=◌, ◌>>◌, pure, host_call, get_errno, is_error, put_user_ual}
use sparcy.Syscall.Defs.{Handler, Case, missing, sys, with_path}

module _ (host : Host) where
  -- `getresuid32` and `getresgid32`: three numbers at three addresses
  unfoldable pub three_ids : HostFn → Handler
  unfolding ◌>>=◌ host_call get_errno is_error put_user_ual
  three_ids f a = do
    r ← host_call host f []
    ret ← get_errno r.result
    if is_error ret then pure ret else do
      put_user_ual (get_or r.out 0 0) a.arg1
      put_user_ual (get_or r.out 1 0) a.arg2
      put_user_ual (get_or r.out 2 0) a.arg3
      pure ret

  unfoldable pub wide_cases : List Case
  unfolding three_ids sys with_path
  wide_cases =
      (Nr.lchown32, λ a. with_path host a.arg1 HostFn.lchown (λ p. p ∷ a.arg2 ∷ a.arg3 ∷ []))
      ∷ (Nr.getuid32, λ a. sys host HostFn.getuid ([]))
      ∷ (Nr.getgid32, λ a. sys host HostFn.getgid ([]))
      ∷ (Nr.geteuid32, λ a. sys host HostFn.geteuid ([]))
      ∷ (Nr.getegid32, λ a. sys host HostFn.getegid ([]))
      ∷ (Nr.setreuid32, λ a. sys host HostFn.setreuid (a.arg1 ∷ a.arg2 ∷ []))
      ∷ (Nr.setregid32, λ a. sys host HostFn.setregid (a.arg1 ∷ a.arg2 ∷ []))
      ∷ missing Nr.getgroups32
      ∷ missing Nr.setgroups32
      ∷ (Nr.fchown32, λ a. sys host HostFn.fchown (a.arg1 ∷ a.arg2 ∷ a.arg3 ∷ []))
      ∷ (Nr.setresuid32, λ a. sys host HostFn.setresuid (a.arg1 ∷ a.arg2 ∷ a.arg3 ∷ []))
      ∷ (Nr.getresuid32, three_ids HostFn.getresuid)
      ∷ (Nr.setresgid32, λ a. sys host HostFn.setresgid (a.arg1 ∷ a.arg2 ∷ a.arg3 ∷ []))
      ∷ (Nr.getresgid32, three_ids HostFn.getresgid)
      ∷ (Nr.chown32, λ a. with_path host a.arg1 HostFn.chown (λ p. p ∷ a.arg2 ∷ a.arg3 ∷ []))
      ∷ (Nr.setuid32, λ a. sys host HostFn.setuid (a.arg1 ∷ []))
      ∷ (Nr.setgid32, λ a. sys host HostFn.setgid (a.arg1 ∷ []))
      ∷ (Nr.setfsuid32, λ a. sys host HostFn.setfsuid (a.arg1 ∷ []))
      ∷ (Nr.setfsgid32, λ a. sys host HostFn.setfsgid (a.arg1 ∷ []))
      ∷ []
