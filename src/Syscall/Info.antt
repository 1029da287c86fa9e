-- ===== src/Syscall/Info.antt =====
-- The cases `stat` to `afs_syscall` of `do_syscall` in proj/sparc-linux/syscall.c.
use sparcy.Base.{ℕ, List, [], ◌∷◌, ◌==◌, ◌||◌, if◌then◌else◌, sext64}
use sparcy.Nr
use sparcy.Guest.{Host, HostFn, M, ◌>>=◌, ◌>>◌, pure, lock_user, host_call, get_errno, is_error}
use sparcy.Convert.Stat.{host_to_target_stat, host_to_target_sysinfo}
use sparcy.Syscall.Basic.{exit_target}
use sparcy.Syscall.Defs.{Handler, Case, missing, sys, with_path}

-- `do_stat`: the structure is stored where the call succeeded.
unfoldable pub do_stat : ℕ → List ℕ → ℕ → M ℕ
unfolding ◌>>=◌ is_error host_to_target_stat
do_stat addr st ret = if is_error ret then pure ret else (host_to_target_stat addr st >> pure ret)

module _ (host : Host) where
  -- `stat` and `lstat`
  unfoldable pub stat_path : HostFn → Handler
  unfolding ◌>>=◌ lock_user host_call get_errno do_stat
  stat_path f a = do
    p ← lock_user a.arg1
    r ← host_call host f (p ∷ [])
    ret ← get_errno r.result
    do_stat a.arg2 r.out ret

  unfoldable pub stat_file : Handler
  unfolding ◌>>=◌ host_call get_errno do_stat
  stat_file a = do
    r ← host_call host HostFn.fstat (a.arg1 ∷ [])
    ret ← get_errno r.result
    do_stat a.arg2 r.out ret

  unfoldable pub system_info : Handler
  unfolding ◌>>=◌ host_call get_errno is_error host_to_target_sysinfo
  system_info a = do
    r ← host_call host HostFn.sysinfo []
    ret ← get_errno r.result
    if is_error ret || a.arg1 == 0 then pure tt else host_to_target_sysinfo a.arg1 r.out
    pure ret

  unfoldable ipc_cases : List Case
  unfolding stat_path stat_file system_info exit_target sys with_path
  ipc_cases =
      missing Nr.ipc
      ∷ (Nr.fsync, λ a. sys host HostFn.fsync (a.arg1 ∷ []))
      ∷ missing Nr.clone
      ∷ (Nr.exit_group, exit_target)
      ∷ (
        Nr.setdomainname,
        λ a. with_path host a.arg1 HostFn.setdomainname (λ p. p ∷ sext64 a.arg2 ∷ []),
      )
      ∷ missing Nr.uname
      ∷ missing Nr.adjtimex
      ∷ missing Nr.create_module
      ∷ missing Nr.init_module
      ∷ missing Nr.delete_module
      ∷ missing Nr.get_kernel_syms
      ∷ missing Nr.quotactl
      ∷ (Nr.getpgid, λ a. sys host HostFn.getpgid (a.arg1 ∷ []))
      ∷ (Nr.fchdir, λ a. sys host HostFn.fchdir (a.arg1 ∷ []))
      ∷ missing Nr.bdflush
      ∷ missing Nr.sysfs
      ∷ (Nr.personality, λ a. sys host HostFn.personality (sext64 a.arg1 ∷ []))
      ∷ missing Nr.afs_syscall
      ∷ []

  unfoldable pub info_cases : List Case
  unfolding ipc_cases stat_path stat_file system_info exit_target sys with_path
  info_cases =
      (Nr.stat, stat_path HostFn.stat)
      ∷ (Nr.lstat, stat_path HostFn.lstat)
      ∷ (Nr.fstat, stat_file)
      ∷ (Nr.vhangup, λ a. sys host HostFn.vhangup ([]))
      ∷ missing Nr.wait4
      ∷ missing Nr.swapoff
      ∷ (Nr.sysinfo, system_info)
      ∷ ipc_cases
