-- ===== src/Syscall/Control.antt =====
-- The cases `prctl` to `fstatat64` of `do_syscall` in proj/sparc-linux/syscall.c.
use sparcy.Base.{ℕ, List, [], ◌∷◌, ◌==◌, ◌||◌, if◌then◌else◌, sext64, get_or}
use sparcy.Nr
use sparcy.Guest.{
  Host, HostFn, M, ◌>>=◌, ◌>>◌, pure, lock_user, host_call, get_errno, is_error, put_user_ual,
  get_user_sal,
}
use sparcy.Convert.Stat.{host_to_target_stat64}
use sparcy.Syscall.Defs.{Handler, Case, missing, sys, with_path}

-- The host's numbers of the options with a pointer, from linux/prctl.h.
abbrev pr_get_pdeathsig : ℕ
pr_get_pdeathsig = 2

abbrev pr_set_name : ℕ
pr_set_name = 15

abbrev pr_get_name : ℕ
pr_get_name = 16

-- The structure is stored where the call succeeded, and `ret` is then 0.
unfoldable pub do_stat64 : ℕ → List ℕ → ℕ → M ℕ
unfolding ◌>>=◌ is_error host_to_target_stat64
do_stat64 addr st ret = if is_error ret then pure ret else (host_to_target_stat64 addr st >> pure 0)

-- The offset that `sendfile` takes; NULL is 0.
unfoldable pub offset_fields : ℕ → M (List ℕ)
unfolding ◌>>=◌ get_user_sal
offset_fields addr =
    if addr == 0 then pure (0 ∷ []) else (get_user_sal addr >>= λ off. pure (1 ∷ sext64 off ∷ []))

module _ (host : Host) where
  unfoldable pub death_signal : Handler
  unfolding ◌>>=◌ host_call get_errno is_error put_user_ual
  death_signal a = do
    r ← host_call host HostFn.prctl (a.arg1 ∷ a.arg3 ∷ a.arg4 ∷ a.arg5 ∷ [])
    ret ← get_errno r.result
    if is_error ret || a.arg2 == 0 then pure tt else put_user_ual (get_or r.out 0 0) a.arg2
    pure ret

  unfoldable pub process_control : Handler
  unfolding death_signal with_path sys
  process_control a =
      if a.arg1 == pr_get_pdeathsig
      then death_signal a
      else if a.arg1 == pr_get_name || a.arg1 == pr_set_name
      then with_path host a.arg2 HostFn.prctl (λ p. a.arg1 ∷ p ∷ a.arg3 ∷ a.arg4 ∷ a.arg5 ∷ [])
      else sys host HostFn.prctl (a.arg1 ∷ a.arg2 ∷ a.arg3 ∷ a.arg4 ∷ a.arg5 ∷ [])

  unfoldable pub send_file : Handler
  unfolding ◌>>=◌ offset_fields host_call get_errno is_error put_user_ual
  send_file a = do
    off ← offset_fields a.arg3
    r ← host_call host HostFn.sendfile (a.arg1 ∷ a.arg2 ∷ sext64 a.arg4 ∷ off)
    ret ← get_errno r.result
    if is_error ret || a.arg3 == 0 then pure tt else put_user_ual (get_or r.out 0 0) a.arg3
    pure ret

  -- `stat64` and `lstat64`
  unfoldable pub stat_path64 : HostFn → Handler
  unfolding ◌>>=◌ lock_user host_call get_errno do_stat64
  stat_path64 f a = do
    p ← lock_user a.arg1
    r ← host_call host f (p ∷ [])
    ret ← get_errno r.result
    do_stat64 a.arg2 r.out ret

  unfoldable pub stat_file64 : Handler
  unfolding ◌>>=◌ host_call get_errno do_stat64
  stat_file64 a = do
    r ← host_call host HostFn.fstat (a.arg1 ∷ [])
    ret ← get_errno r.result
    do_stat64 a.arg2 r.out ret

  unfoldable pub stat_at64 : Handler
  unfolding ◌>>=◌ lock_user host_call get_errno do_stat64
  stat_at64 a = do
    p ← lock_user a.arg2
    r ← host_call host HostFn.fstatat (a.arg1 ∷ p ∷ a.arg4 ∷ [])
    ret ← get_errno r.result
    do_stat64 a.arg3 r.out ret

  unfoldable vfork_cases : List Case
  unfolding process_control send_file stat_path64 stat_file64 stat_at64 with_path
  vfork_cases =
      missing Nr.vfork
      ∷ missing Nr.truncate64
      ∷ missing Nr.ftruncate64
      ∷ (Nr.stat64, stat_path64 HostFn.stat)
      ∷ (Nr.lstat64, stat_path64 HostFn.lstat)
      ∷ (Nr.fstat64, stat_file64)
      ∷ (Nr.fstatat64, stat_at64)
      ∷ []

  unfoldable pub control_cases : List Case
  unfolding vfork_cases process_control send_file stat_path64 stat_file64 stat_at64 with_path
  control_cases =
      (Nr.prctl, process_control)
      ∷ missing Nr.pread64
      ∷ missing Nr.pwrite64
      ∷ (Nr.getcwd, λ a. with_path host a.arg1 HostFn.getcwd (λ p. p ∷ a.arg2 ∷ []))
      ∷ missing Nr.capget
      ∷ missing Nr.capset
      ∷ missing Nr.sigaltstack
      ∷ (Nr.sendfile, send_file)
      ∷ vfork_cases
