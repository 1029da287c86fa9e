-- ===== src/Syscall/Network.antt =====
-- The cases `socketcall` to `getitimer` of `do_syscall` in proj/sparc-linux/syscall.c.
use sparcy.Base.{ℕ, List, [], ◌∷◌, ◌==◌, ◌||◌, if◌then◌else◌, ◌+◌}
use sparcy.Nr
use sparcy.Guest.{Host, HostFn, M, ◌>>=◌, ◌>>◌, pure, host_call, get_errno, is_error}
use sparcy.Convert.Time.{timeval_at, copy_from_user_timeval, copy_to_user_timeval}
use sparcy.Syscall.Defs.{Handler, Case, missing, with_path}

-- struct itimerval as the host reads it; NULL is 0.
unfoldable pub itimer_fields : ℕ → M (List ℕ)
unfolding ◌>>=◌ copy_from_user_timeval
itimer_fields addr = if addr == 0 then pure (0 ∷ []) else do
  i ← copy_from_user_timeval addr
  v ← copy_from_user_timeval (addr + 8)
  pure (1 ∷ i.tv_sec ∷ i.tv_usec ∷ v.tv_sec ∷ v.tv_usec ∷ [])

-- The interval and the value that the host left, where the call succeeded and an address is given.
unfoldable pub store_itimer : ℕ → List ℕ → ℕ → M ℕ
unfolding ◌>>=◌ is_error copy_to_user_timeval
store_itimer addr out ret = if is_error ret || addr == 0 then pure ret else do
  copy_to_user_timeval addr (timeval_at out 0)
  copy_to_user_timeval (addr + 8) (timeval_at out 2)
  pure ret

module _ (host : Host) where
  unfoldable pub set_itimer : Handler
  unfolding ◌>>=◌ itimer_fields host_call get_errno store_itimer
  set_itimer a = do
    t ← itimer_fields a.arg2
    r ← host_call host HostFn.setitimer (a.arg1 ∷ t)
    ret ← get_errno r.result
    store_itimer a.arg3 r.out ret

  unfoldable pub get_itimer : Handler
  unfolding ◌>>=◌ host_call get_errno store_itimer
  get_itimer a = do
    r ← host_call host HostFn.getitimer (a.arg1 ∷ [])
    ret ← get_errno r.result
    store_itimer a.arg2 r.out ret

  unfoldable shutdown_cases : List Case
  unfolding set_itimer get_itimer with_path
  shutdown_cases =
      missing Nr.shutdown
      ∷ missing Nr.socket
      ∷ missing Nr.socketpair
      ∷ (Nr.syslog, λ a. with_path host a.arg2 HostFn.syslog (λ p. a.arg1 ∷ p ∷ a.arg3 ∷ []))
      ∷ (Nr.setitimer, set_itimer)
      ∷ (Nr.getitimer, get_itimer)
      ∷ []

  unfoldable pub network_cases : List Case
  unfolding shutdown_cases set_itimer get_itimer with_path
  network_cases =
      missing Nr.socketcall
      ∷ missing Nr.accept
      ∷ missing Nr.accept4
      ∷ missing Nr.connect
      ∷ missing Nr.getpeername
      ∷ missing Nr.getsockname
      ∷ missing Nr.getsockopt
      ∷ missing Nr.recvfrom
      ∷ missing Nr.recvmsg
      ∷ missing Nr.sendmsg
      ∷ missing Nr.sendmmsg
      ∷ missing Nr.recvmmsg
      ∷ missing Nr.sendto
      ∷ shutdown_cases
