-- ===== src/Syscall/Mapping.antt =====
-- The cases `mmap` to `fstatfs64` of `do_syscall` in proj/sparc-linux/syscall.c.
use sparcy.Base.{
  ℕ, List, [], ◌∷◌, ◌==◌, ◌&&◌, not, if◌then◌else◌, sext64, u32, ◌+◌, ◌-◌, ◌*◌, ◌^◌, neg32,
}
use sparcy.Nr
use sparcy.Guest.{
  Host, HostFn, M, ◌>>=◌, ◌>>◌, pure, gets, set_errno, lock_user, g2h, host_call, get_errno,
  is_error,
}
use sparcy.Errno.{host_to_target_errno}
use sparcy.Mmap.{target_mmap, target_munmap}
use sparcy.Convert.Stat.{host_to_target_statfs, host_to_target_statfs64}
use sparcy.Syscall.Defs.{Handler, Case, missing, sys, with_path}

unfoldable pub map_memory : Handler
unfolding ◌>>=◌ target_mmap get_errno
map_memory a = do r ← target_mmap a.arg1 a.arg2 a.arg3 a.arg4 a.arg5 a.arg6; get_errno r

-- The offset counts pages: `MMAP_SHIFT` is 12.
unfoldable pub map_memory2 : Handler
unfolding ◌>>=◌ target_mmap get_errno
map_memory2 a = do
  r ← target_mmap a.arg1 a.arg2 a.arg3 a.arg4 a.arg5 (u32 (a.arg6 * 2 ^ 12))
  get_errno r

unfoldable pub unmap_memory : Handler
unfolding ◌>>=◌ target_munmap get_errno
unmap_memory a = do r ← target_munmap a.arg1 a.arg2; get_errno r

-- `convert_statfs` and `convert_statfs64`: the structure is stored where the call succeeded.
unfoldable pub convert_statfs : ℕ → List ℕ → ℕ → M ℕ
unfolding ◌>>=◌ is_error host_to_target_statfs
convert_statfs addr stfs ret =
    if is_error ret then pure ret else (host_to_target_statfs addr stfs >> pure ret)

unfoldable pub convert_statfs64 : ℕ → List ℕ → ℕ → M ℕ
unfolding ◌>>=◌ is_error host_to_target_statfs64
convert_statfs64 addr stfs ret =
    if is_error ret then pure ret else (host_to_target_statfs64 addr stfs >> pure ret)

module _ (host : Host) where
  -- `get_errno(f(g2h(arg1), args))`
  unfoldable pub at_host : ℕ → HostFn → (ℕ → List ℕ) → M ℕ
  unfolding ◌>>=◌ gets g2h sys
  at_host addr f args = do p ← gets (λ s. g2h s.target addr); sys host f (args p)

  -- The value returned may be -1 without an error, so `errno` tells; it is biased by 20.
  unfoldable pub get_priority : Handler
  unfolding ◌>>=◌ set_errno host_call gets
  get_priority a = do
    set_errno 0
    r ← host_call host HostFn.getpriority (a.arg1 ∷ a.arg2 ∷ [])
    e ← gets (λ s. s.errno)
    pure (
        if u32 r.result == neg32 1 && not (e == 0)
        then neg32 (host_to_target_errno e)
        else u32 (20 + 2 ^ 32 - u32 r.result))

  unfoldable pub stat_fs : Handler
  unfolding ◌>>=◌ lock_user host_call get_errno convert_statfs
  stat_fs a = do
    p ← lock_user a.arg1
    r ← host_call host HostFn.statfs (p ∷ [])
    ret ← get_errno r.result
    convert_statfs a.arg2 r.out ret

  unfoldable pub fstat_fs : Handler
  unfolding ◌>>=◌ host_call get_errno convert_statfs
  fstat_fs a = do
    r ← host_call host HostFn.fstatfs (a.arg1 ∷ [])
    ret ← get_errno r.result
    convert_statfs a.arg2 r.out ret

  unfoldable pub stat_fs64 : Handler
  unfolding ◌>>=◌ lock_user host_call get_errno convert_statfs64
  stat_fs64 a = do
    p ← lock_user a.arg1
    r ← host_call host HostFn.statfs (p ∷ [])
    ret ← get_errno r.result
    convert_statfs64 a.arg3 r.out ret

  unfoldable pub fstat_fs64 : Handler
  unfolding ◌>>=◌ host_call get_errno convert_statfs64
  fstat_fs64 a = do
    r ← host_call host HostFn.fstatfs (a.arg1 ∷ [])
    ret ← get_errno r.result
    convert_statfs64 a.arg3 r.out ret

  unfoldable setpriority_cases : List Case
  unfolding map_memory map_memory2 unmap_memory at_host get_priority stat_fs fstat_fs stat_fs64
      fstat_fs64 sys with_path
  setpriority_cases =
      (Nr.setpriority, λ a. sys host HostFn.setpriority (a.arg1 ∷ a.arg2 ∷ a.arg3 ∷ []))
      ∷ (Nr.statfs, stat_fs)
      ∷ (Nr.fstatfs, fstat_fs)
      ∷ (Nr.statfs64, stat_fs64)
      ∷ (Nr.fstatfs64, fstat_fs64)
      ∷ []

  unfoldable pub mapping_cases : List Case
  unfolding setpriority_cases map_memory map_memory2 unmap_memory at_host get_priority stat_fs
      fstat_fs stat_fs64 fstat_fs64 sys with_path
  mapping_cases =
      (Nr.mmap, map_memory)
      ∷ (Nr.mmap2, map_memory2)
      ∷ (Nr.munmap, unmap_memory)
      ∷ missing Nr.mprotect
      ∷ missing Nr.mremap
      ∷ (Nr.msync, λ a. at_host a.arg1 HostFn.msync (λ p. p ∷ sext64 a.arg2 ∷ a.arg3 ∷ []))
      ∷ (Nr.mlock, λ a. at_host a.arg1 HostFn.mlock (λ p. p ∷ sext64 a.arg2 ∷ []))
      ∷ (Nr.munlock, λ a. at_host a.arg1 HostFn.munlock (λ p. p ∷ sext64 a.arg2 ∷ []))
      ∷ missing Nr.mlockall
      ∷ (Nr.munlockall, λ a. sys host HostFn.munlockall ([]))
      ∷ (Nr.truncate, λ a. with_path host a.arg1 HostFn.truncate (λ p. p ∷ sext64 a.arg2 ∷ []))
      ∷ (Nr.ftruncate, λ a. sys host HostFn.ftruncate (a.arg1 ∷ sext64 a.arg2 ∷ []))
      ∷ (Nr.fchmod, λ a. sys host HostFn.fchmod (a.arg1 ∷ a.arg2 ∷ []))
      ∷ (
        Nr.fchmodat,
        λ a. with_path host a.arg2 HostFn.fchmodat (λ p. a.arg1 ∷ p ∷ a.arg3 ∷ 0 ∷ []),
      )
      ∷ (Nr.getpriority, get_priority)
      ∷ setpriority_cases
