-- ===== src/Guest/Run.antt =====
-- The globals of proj/sparc-linux/syscall.c, and its statements as state passing with the two
-- labels that a handler may jump to.
use sparcy.Base.{
  ℕ, ◌+◌, ◌-◌, ◌^◌, List, ◌∷◌, none, some, Bool, ◌==◌, leb, if◌then◌else◌, u32, u64, neg32,
}
use sparcy.Memory.{Memory}
use sparcy.Errno.{host_to_target_errno}
use sparcy.Guest.Calls.{HostFn, HostCall, Reply, Host}

-- The global state of the target.
pub record Target : Type 0 where
  pub target_brk : ℕ
  pub target_brk_limit : ℕ
  pub target_cur_mmap_ptr : ℕ
  pub target_mmap_limit : ℕ
  pub target_sp : ℕ
  pub target_exit_called : ℕ
  pub guest_base : ℕ
  pub guest_max_mem : ℕ

-- With it the host's `errno`, the memory, and the calls of the host so far, the last one first.
pub record Sys : Type 0 where
  pub target : Target
  pub errno : ℕ
  pub memory : Memory
  pub trace : List HostCall

-- Where control goes on: to the next statement, to a label at the end of `do_syscall`, or nowhere,
-- since a loop does not end.
pub data Flow (A : Type 0) : Type 0 where
  next : A → Flow A
  efault unimplemented hang : Flow A

abbrev pub M : Type 0 → Type 0
M A = Sys → Flow A × Sys

module _ {A : Type 0} where
  unfoldable pub pure : A → M A
  pure a s = (next a, s)

  -- `goto efault`, `goto unimplemented`, and a loop that does not end
  unfoldable pub raise_efault : M A
  raise_efault s = (efault, s)

  unfoldable pub raise_unimplemented : M A
  raise_unimplemented s = (unimplemented, s)

  unfoldable pub loop_forever : M A
  loop_forever s = (hang, s)

  -- A statement that only reads.
  unfoldable pub gets : (Sys → A) → M A
  gets f s = (next (f s), s)

unfoldable pub set_errno : ℕ → M (Unit {0})
set_errno e s = (next tt, record s { errno = e })

unfoldable pub write_memory : (Memory → Memory) → M (Unit {0})
write_memory f s = (next tt, record s { memory = f s.memory })

unfoldable pub write_target : (Target → Target) → M (Unit {0})
write_target f s = (next tt, record s { target = f s.target })

module _ {A B : Type 0} where
  abbrev pub bind_flow : Flow A → (A → M B) → M B
  bind_flow (next a) f s = f a s
  bind_flow efault f s = (efault, s)
  bind_flow unimplemented f s = (unimplemented, s)
  bind_flow hang f s = (hang, s)

  infixl 5 ◌>>=◌ ◌>>◌
  -- Opening this opens the statements above too.
  unfoldable pub ◌>>=◌ : M A → (A → M B) → M B
  unfolding pure raise_efault raise_unimplemented loop_forever gets set_errno write_memory
      write_target
  ◌>>=◌ m f s = bind_flow (m s).0 f (m s).1

  abbrev pub ◌>>◌ : M A → M B → M B
  m >> k = m >>= λ _. k

-- The host address of a guest address.
unfoldable pub g2h : Target → ℕ → ℕ
g2h t x = u64 (u32 x + t.guest_base)

-- `lock_user` and `lock_user_string` translate the address and copy nothing. The callers jump to
-- `efault` at NULL.
unfoldable pub lock_user : ℕ → M ℕ
unfolding g2h gets raise_efault pure ◌>>=◌
lock_user guest_addr = do
  p ← gets (λ s. g2h s.target guest_addr)
  if p == 0 then raise_efault else pure p

module _ (host : Host) where
  -- A call of the host.
  unfoldable pub host_call : HostFn → List ℕ → M Reply
  host_call f args s =
      let call : HostCall = record { function = f; args = args } in
      let r = host s.trace s.memory call in
      (
        next r,
        record s {
          errno = elim r.error [ none ↦ s.errno | some e ↦ e ];
          memory = r.memory;
          trace = call ∷ s.trace;
        },
      )

-- An error is one of the top 4096 values.
unfoldable pub is_error : ℕ → Bool
is_error ret = leb (2 ^ 32 - 4096) ret

-- The argument has been cut to an abi_long, 32 bits.
unfoldable pub get_errno : ℕ → M ℕ
unfolding gets
get_errno ret =
    gets λ s. if u32 ret == 0xffff_ffff then neg32 (host_to_target_errno s.errno) else u32 ret
