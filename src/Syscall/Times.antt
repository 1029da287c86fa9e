-- ===== src/Syscall/Times.antt =====
-- The cases `setrlimit` to `reboot` and `readdir` of `do_syscall` in proj/sparc-linux/syscall.c.
use sparcy.Base.{ℕ, List, [], ◌∷◌, ◌++◌, ◌==◌, if◌then◌else◌, get_or, ◌+◌}
use sparcy.Nr
use sparcy.Guest.{
  Host, HostFn, M, ◌>>=◌, ◌>>◌, pure, gets, write_memory, lock_user, host_call, get_errno, is_error,
  swap_load,
}
use sparcy.Convert.Limits.{
  target_to_host_resource, target_to_host_rlim, host_to_target_rlim, host_to_target_rusage,
}
use sparcy.Convert.Time.{timeval_at, copy_from_user_timezone, copy_to_user_timeval}
use sparcy.Convert.FdSet.{timeval_fields, copy_from_user_timeval_ptr, do_select}
use sparcy.Memory.{stl_he_p, ldl_he_p}
use sparcy.Syscall.Defs.{Handler, Case, missing, sys, with_paths}

-- The time zone that the host reads; NULL is 0.
unfoldable pub timezone_fields : ℕ → M (List ℕ)
unfolding ◌>>=◌ copy_from_user_timezone
timezone_fields addr =
    if addr == 0
    then pure (0 ∷ [])
    else do z ← copy_from_user_timezone addr; pure (1 ∷ z.tz_minuteswest ∷ z.tz_dsttime ∷ [])

-- A field of the target's memory as it stands, and an assignment to it.
abbrev raw_load : ℕ → M ℕ
raw_load p = gets (λ s. ldl_he_p s.memory p)

abbrev raw_store : ℕ → ℕ → M (Unit {0})
raw_store p v = write_memory (λ m. stl_he_p m p v)

module _ (host : Host) where
  unfoldable pub set_limit : Handler
  unfolding ◌>>=◌ lock_user sys target_to_host_resource target_to_host_rlim
  set_limit a = do
    p ← lock_user a.arg2
    cur ← raw_load p
    max ← raw_load (p + 4)
    sys host HostFn.setrlimit
        (target_to_host_resource a.arg1 ∷ target_to_host_rlim cur ∷ target_to_host_rlim max ∷ [])

  unfoldable pub store_limit : ℕ → List ℕ → M (Unit {0})
  unfolding ◌>>=◌ lock_user host_to_target_rlim
  store_limit addr rlim = do
    p ← lock_user addr
    raw_store p (host_to_target_rlim (get_or rlim 0 0))
    raw_store (p + 4) (host_to_target_rlim (get_or rlim 1 0))

  unfoldable pub get_limit : Handler
  unfolding ◌>>=◌ host_call get_errno is_error store_limit target_to_host_resource
  get_limit a = do
    r ← host_call host HostFn.getrlimit (target_to_host_resource a.arg1 ∷ [])
    ret ← get_errno r.result
    if is_error ret then pure tt else store_limit a.arg2 r.out
    pure ret

  unfoldable pub get_usage : Handler
  unfolding ◌>>=◌ host_call get_errno is_error host_to_target_rusage
  get_usage a = do
    r ← host_call host HostFn.getrusage (a.arg1 ∷ [])
    ret ← get_errno r.result
    if is_error ret then pure ret else (host_to_target_rusage a.arg2 r.out >> pure 0)

  unfoldable pub get_time_of_day : Handler
  unfolding ◌>>=◌ host_call get_errno is_error copy_to_user_timeval
  get_time_of_day a = do
    r ← host_call host HostFn.gettimeofday []
    ret ← get_errno r.result
    if is_error ret then pure tt else copy_to_user_timeval a.arg1 (timeval_at r.out 0)
    pure ret

  unfoldable pub set_time_of_day : Handler
  unfolding ◌>>=◌ copy_from_user_timeval_ptr timezone_fields sys
  set_time_of_day a = do
    tv ← copy_from_user_timeval_ptr a.arg1
    tz ← timezone_fields a.arg2
    sys host HostFn.settimeofday (timeval_fields tv ++ tz)

  -- The five arguments stand in a structure of the guest.
  unfoldable pub old_select : Handler
  unfolding ◌>>=◌ lock_user swap_load do_select
  old_select a = do
    p ← lock_user a.arg1
    nsel ← swap_load p
    inp ← swap_load (p + 4)
    outp ← swap_load (p + 8)
    exp ← swap_load (p + 12)
    tvp ← swap_load (p + 16)
    do_select host nsel inp outp exp tvp

  unfoldable pselect6_cases : List Case
  unfolding set_limit get_limit get_usage get_time_of_day set_time_of_day old_select with_paths
  pselect6_cases =
      missing Nr.pselect6
      ∷ (Nr.symlink, λ a. with_paths host a.arg1 a.arg2 HostFn.symlink (λ p p2. p ∷ p2 ∷ []))
      ∷ (
        Nr.symlinkat,
        λ a. with_paths host a.arg1 a.arg3 HostFn.symlinkat (λ p p2. p ∷ a.arg2 ∷ p2 ∷ []),
      )
      ∷ missing Nr.oldlstat
      ∷ missing Nr.readlink
      ∷ missing Nr.readlinkat
      ∷ missing Nr.uselib
      ∷ missing Nr.swapon
      ∷ missing Nr.reboot
      ∷ missing Nr.readdir
      ∷ []

  unfoldable pub time_cases : List Case
  unfolding pselect6_cases set_limit get_limit get_usage get_time_of_day set_time_of_day old_select
      with_paths
  time_cases =
      (Nr.setrlimit, set_limit)
      ∷ (Nr.getrlimit, get_limit)
      ∷ (Nr.getrusage, get_usage)
      ∷ (Nr.gettimeofday, get_time_of_day)
      ∷ (Nr.settimeofday, set_time_of_day)
      ∷ (Nr.select, old_select)
      ∷ pselect6_cases
