-- ===== src/Syscall/Basic.antt =====
-- The cases `exit` to `getpid` of `do_syscall` in proj/sparc-linux/syscall.c.
use sparcy.Base.{List, [], ◌∷◌, ◌==◌, ◌||◌, if◌then◌else◌, sext64, get_or}
use sparcy.Nr
use sparcy.Guest.{
  Host, HostFn, ◌>>=◌, ◌>>◌, pure, raise_efault, write_target, host_call, get_errno, is_error,
  put_user_ual,
}
use sparcy.Brk.{do_brk}
use sparcy.Syscall.Defs.{Handler, Case, missing, sys, with_path, with_paths}

-- No value is assigned to `ret`.
unfoldable pub exit_target : Handler
unfolding ◌>>=◌
exit_target a = do write_target (λ t. record t { target_exit_called = 1 }); pure a.ret

module _ (host : Host) where
  unfoldable pub read_file : Handler
  unfolding with_path
  read_file a =
      if a.arg3 == 0
      then pure 0
      else with_path host a.arg2 HostFn.read (λ p. a.arg1 ∷ p ∷ sext64 a.arg3 ∷ [])

  unfoldable pub write_file : Handler
  unfolding with_path
  write_file a = with_path host a.arg2 HostFn.write (λ p. a.arg1 ∷ p ∷ sext64 a.arg3 ∷ [])

  unfoldable pub link_at : Handler
  unfolding with_paths
  link_at a =
      if a.arg2 == 0 || a.arg4 == 0
      then raise_efault
      else with_paths host a.arg2 a.arg4 HostFn.linkat
          (λ p p2. a.arg1 ∷ p ∷ a.arg3 ∷ p2 ∷ a.arg5 ∷ [])

  unfoldable pub get_time : Handler
  unfolding ◌>>=◌ host_call get_errno is_error put_user_ual
  get_time a = do
    r ← host_call host HostFn.time []
    ret ← get_errno r.result
    if is_error ret || a.arg1 == 0 then pure tt else put_user_ual (get_or r.out 0 0) a.arg1
    pure ret

  unfoldable unlink_cases : List Case
  unfolding exit_target read_file write_file link_at get_time sys with_path with_paths
  unlink_cases =
      (Nr.unlink, λ a. with_path host a.arg1 HostFn.unlink (λ p. p ∷ []))
      ∷ (Nr.unlinkat, λ a. with_path host a.arg2 HostFn.unlinkat (λ p. a.arg1 ∷ p ∷ a.arg3 ∷ []))
      ∷ missing Nr.execve
      ∷ (Nr.chdir, λ a. with_path host a.arg1 HostFn.chdir (λ p. p ∷ []))
      ∷ (Nr.time, get_time)
      ∷ (Nr.mknod, λ a. with_path host a.arg1 HostFn.mknod (λ p. p ∷ a.arg2 ∷ sext64 a.arg3 ∷ []))
      ∷ (
        Nr.mknodat,
        λ a. with_path host a.arg2 HostFn.mknodat (λ p. a.arg1 ∷ p ∷ a.arg3 ∷ sext64 a.arg4 ∷ []),
      )
      ∷ (Nr.chmod, λ a. with_path host a.arg1 HostFn.chmod (λ p. p ∷ a.arg2 ∷ []))
      ∷ (Nr.lseek, λ a. sys host HostFn.lseek (a.arg1 ∷ sext64 a.arg2 ∷ a.arg3 ∷ []))
      ∷ (Nr.getpid, λ a. sys host HostFn.getpid [])
      ∷ []

  unfoldable pub basic_cases : List Case
  unfolding unlink_cases exit_target read_file write_file link_at get_time sys with_path with_paths
  basic_cases =
      (Nr.exit, exit_target)
      ∷ (Nr.read, read_file)
      ∷ (Nr.write, write_file)
      ∷ (Nr.open_file, λ a. with_path host a.arg1 HostFn.open_file (λ p. p ∷ a.arg2 ∷ a.arg3 ∷ []))
      ∷ missing Nr.openat
      ∷ (Nr.close, λ a. sys host HostFn.close (a.arg1 ∷ []))
      ∷ (Nr.brk, λ a. do_brk a.arg1)
      ∷ missing Nr.fork
      ∷ missing Nr.waitpid
      ∷ missing Nr.waitid
      ∷ (Nr.creat, λ a. with_path host a.arg1 HostFn.creat (λ p. p ∷ a.arg2 ∷ []))
      ∷ (Nr.link, λ a. with_paths host a.arg1 a.arg2 HostFn.link (λ p p2. p ∷ p2 ∷ []))
      ∷ (Nr.linkat, link_at)
      ∷ unlink_cases
