-- ===== src/Syscall/Users.antt =====
-- The cases `lchown` to `setfsgid` of `do_syscall` in proj/sparc-linux/syscall.c.
use sparcy.Base.{ℕ, List, [], ◌∷◌, u32}
use sparcy.Nr
use sparcy.Guest.{Host, HostFn, ◌>>=◌, host_call, get_errno}
use sparcy.Convert.Uid.{high2lowuid, high2lowgid, low2highuid, low2highgid}
use sparcy.Syscall.Defs.{Handler, Case, missing, sys, with_path}

module _ (host : Host) where
  -- `get_errno(low(f()))`: a user or group number of the host in 16 bits
  unfoldable pub low_id : HostFn → (ℕ → ℕ) → Handler
  unfolding ◌>>=◌ host_call get_errno
  low_id f low a = do r ← host_call host f []; get_errno (low (u32 r.result))

  unfoldable pub user_cases : List Case
  unfolding low_id sys with_path low2highuid low2highgid high2lowuid high2lowgid
  user_cases =
      (
        Nr.lchown,
        λ a.
            with_path host a.arg1 HostFn.lchown
              (λ p. p ∷ low2highuid a.arg2 ∷ low2highgid a.arg3 ∷ []),
      )
      ∷ (Nr.getuid, low_id HostFn.getuid high2lowuid)
      ∷ (Nr.getgid, low_id HostFn.getgid high2lowgid)
      ∷ (Nr.geteuid, low_id HostFn.geteuid high2lowuid)
      ∷ (Nr.getegid, low_id HostFn.getegid high2lowgid)
      ∷ (Nr.setreuid, λ a. sys host HostFn.setreuid (low2highuid a.arg1 ∷ low2highuid a.arg2 ∷ []))
      ∷ (Nr.setregid, λ a. sys host HostFn.setregid (low2highgid a.arg1 ∷ low2highgid a.arg2 ∷ []))
      ∷ missing Nr.getgroups
      ∷ missing Nr.setgroups
      ∷ (
        Nr.fchown,
        λ a. sys host HostFn.fchown (a.arg1 ∷ low2highuid a.arg2 ∷ low2highgid a.arg3 ∷ []),
      )
      ∷ (
        Nr.fchownat,
        λ a.
            with_path host a.arg2 HostFn.fchownat
              (λ p. a.arg1 ∷ p ∷ low2highuid a.arg3 ∷ low2highgid a.arg4 ∷ a.arg5 ∷ []),
      )
      ∷ (
        Nr.chown,
        λ a.
            with_path host a.arg1 HostFn.chown
              (λ p. p ∷ low2highuid a.arg2 ∷ low2highgid a.arg3 ∷ []),
      )
      ∷ (Nr.setuid, λ a. sys host HostFn.setuid (low2highuid a.arg1 ∷ []))
      ∷ (Nr.setgid, λ a. sys host HostFn.setgid (low2highgid a.arg1 ∷ []))
      ∷ (Nr.setfsuid, λ a. sys host HostFn.setfsuid (a.arg1 ∷ []))
      ∷ (Nr.setfsgid, λ a. sys host HostFn.setfsgid (a.arg1 ∷ []))
      ∷ []
