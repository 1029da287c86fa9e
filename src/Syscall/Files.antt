-- ===== src/Syscall/Files.antt =====
-- The cases `mount` to `pipe2` of `do_syscall` in proj/sparc-linux/syscall.c.
use sparcy.Base.{ℕ, List, [], ◌∷◌, ◌==◌, if◌then◌else◌, sext64, ◌+◌, Option, none, some}
use sparcy.Nr
use sparcy.Guest.{Host, HostFn, M, ◌>>=◌, pure, lock_user, host_call, get_user_sal, swap_load}
use sparcy.Convert.Time.{Timeval, copy_from_user_timeval}
use sparcy.Syscall.Defs.{Handler, Case, missing, sys, with_path, with_paths}

-- A pair of times that the host reads; NULL is 0.
abbrev times_fields : Option (Timeval × Timeval) → List ℕ
times_fields none = 0 ∷ []
times_fields (some (t, u)) = 1 ∷ t.tv_sec ∷ t.tv_usec ∷ u.tv_sec ∷ u.tv_usec ∷ []

-- Two timevals, one after the other; none at the address 0.
unfoldable pub copy_two_timevals : ℕ → M (Option (Timeval × Timeval))
unfolding ◌>>=◌ copy_from_user_timeval
copy_two_timevals addr = if addr == 0 then pure none else do
  t ← copy_from_user_timeval addr
  u ← copy_from_user_timeval (addr + 8)
  pure (some (t, u))

module _ (host : Host) where
  unfoldable pub set_time : Handler
  unfolding ◌>>=◌ get_user_sal sys
  set_time a = do t ← get_user_sal a.arg1; sys host HostFn.stime (sext64 t ∷ [])

  -- The times are read without their sign.
  unfoldable pub utime_fields : ℕ → M (List ℕ)
  unfolding ◌>>=◌ lock_user swap_load
  utime_fields addr = if addr == 0 then pure (0 ∷ []) else do
    p ← lock_user addr
    actime ← swap_load p
    modtime ← swap_load (p + 4)
    pure (1 ∷ actime ∷ modtime ∷ [])

  unfoldable pub set_utime : Handler
  unfolding ◌>>=◌ utime_fields with_path
  set_utime a = do t ← utime_fields a.arg2; with_path host a.arg1 HostFn.utime (λ p. p ∷ t)

  unfoldable pub set_utimes : Handler
  unfolding ◌>>=◌ copy_two_timevals with_path
  set_utimes a = do
    t ← copy_two_timevals a.arg2
    with_path host a.arg1 HostFn.utimes (λ p. p ∷ times_fields t)

  unfoldable pub set_times_at : Handler
  unfolding ◌>>=◌ copy_two_timevals with_path
  set_times_at a = do
    t ← copy_two_timevals a.arg3
    with_path host a.arg2 HostFn.futimesat (λ p. a.arg1 ∷ p ∷ times_fields t)

  unfoldable pub sync_all : Handler
  unfolding ◌>>=◌ host_call
  sync_all a = do r ← host_call host HostFn.sync []; pure 0

  unfoldable access_cases : List Case
  unfolding set_time set_utime set_utimes set_times_at sync_all sys with_path with_paths
  access_cases =
      (Nr.access, λ a. with_path host a.arg1 HostFn.access (λ p. p ∷ a.arg2 ∷ []))
      ∷ (
        Nr.faccessat,
        λ a. with_path host a.arg2 HostFn.faccessat (λ p. a.arg1 ∷ p ∷ a.arg3 ∷ 0 ∷ []),
      )
      ∷ (Nr.nice, λ a. sys host HostFn.nice (a.arg1 ∷ []))
      ∷ (Nr.sync, sync_all)
      ∷ missing Nr.kill
      ∷ (Nr.rename, λ a. with_paths host a.arg1 a.arg2 HostFn.rename (λ p p2. p ∷ p2 ∷ []))
      ∷ (
        Nr.renameat,
        λ a. with_paths host a.arg2 a.arg4 HostFn.renameat (λ p p2. a.arg1 ∷ p ∷ a.arg3 ∷ p2 ∷ []),
      )
      ∷ (Nr.mkdir, λ a. with_path host a.arg1 HostFn.mkdir (λ p. p ∷ a.arg2 ∷ []))
      ∷ (Nr.mkdirat, λ a. with_path host a.arg2 HostFn.mkdirat (λ p. a.arg1 ∷ p ∷ a.arg3 ∷ []))
      ∷ (Nr.rmdir, λ a. with_path host a.arg1 HostFn.rmdir (λ p. p ∷ []))
      ∷ (Nr.dup, λ a. sys host HostFn.dup (a.arg1 ∷ []))
      ∷ missing Nr.pipe
      ∷ missing Nr.pipe2
      ∷ []

  unfoldable pub file_cases : List Case
  unfolding access_cases set_time set_utime set_utimes set_times_at sync_all sys with_path
      with_paths
  file_cases =
      missing Nr.mount
      ∷ missing Nr.umount
      ∷ (Nr.stime, set_time)
      ∷ missing Nr.ptrace
      ∷ missing Nr.alarm
      ∷ missing Nr.pause
      ∷ (Nr.utime, set_utime)
      ∷ (Nr.utimes, set_utimes)
      ∷ (Nr.futimesat, set_times_at)
      ∷ access_cases
