-- ===== src/Syscall/Defs.antt =====
-- The arguments of `do_syscall` of proj/sparc-linux/syscall.c, its `switch`, and the statements that
-- most of its cases are made of.
use sparcy.Base.{ℕ, List, [], ◌∷◌, ◌==◌, if◌then◌else◌, neg32}
use sparcy.Errno.Target
use sparcy.Guest.{
  Host, HostFn, Sys, Flow, next, efault, unimplemented, hang, M, ◌>>=◌, lock_user, host_call,
  get_errno, raise_unimplemented,
}
use mathlib.Core.Option.{Option, none, some}

-- The number and the arguments, each an abi_long. `ret` is what the local variable of that name
-- holds before any case has assigned to it.
pub record Args : Type 0 where
  pub num : ℕ
  pub arg1 : ℕ
  pub arg2 : ℕ
  pub arg3 : ℕ
  pub arg4 : ℕ
  pub arg5 : ℕ
  pub arg6 : ℕ
  pub arg7 : ℕ
  pub arg8 : ℕ
  pub ret : ℕ

abbrev pub Handler : Type 0
Handler = Args → M ℕ

-- A label of the `switch` and the statements at it.
abbrev pub Case : Type 0
Case = ℕ × Handler

-- The statements at the label, or those at `default`.
unfoldable pub switch : List Case → ℕ → Handler
switch [] num a = raise_unimplemented
switch ((label, body) ∷ l) num a = if num == label then body a else switch l num a

-- The labels at the end. `none` means that the call does not return.
unfoldable pub finish : Flow ℕ × Sys → Option ℕ × Sys
finish (next ret, s) = (some ret, s)
finish (efault, s) = (some (neg32 Target.efault), s)
finish (unimplemented, s) = (some (neg32 Target.enosys), s)
finish (hang, s) = (none, s)

-- `case n: goto unimplemented;`
abbrev pub missing : ℕ → Case
missing n = (n, λ a. raise_unimplemented)

module _ (host : Host) where
  -- `get_errno(f(args))`
  unfoldable pub sys : HostFn → List ℕ → M ℕ
  unfolding ◌>>=◌ host_call get_errno
  sys f args = do r ← host_call host f args; get_errno r.result

  -- `if (!(p = lock_user_string(addr))) goto efault; get_errno(f(args))`
  unfoldable pub with_path : ℕ → HostFn → (ℕ → List ℕ) → M ℕ
  unfolding ◌>>=◌ lock_user sys
  with_path addr f args = do p ← lock_user addr; sys f (args p)

  -- The same with two paths.
  unfoldable pub with_paths : ℕ → ℕ → HostFn → (ℕ → ℕ → List ℕ) → M ℕ
  unfolding ◌>>=◌ lock_user sys
  with_paths addr addr2 f args = do p ← lock_user addr; p2 ← lock_user addr2; sys f (args p p2)
