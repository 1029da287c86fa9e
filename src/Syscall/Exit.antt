-- ===== src/Syscall/Exit.antt =====
-- How a program ends: the flag that `sl_exit_called` of proj/sparc-linux/syscall.c returns.
use sparcy.Base.{ℕ, ◌≡◌, refl, ◌⊎◌, inl, inr, ◌≢◌, ◌==◌, arith, u32, Bool-cases, ◌*◌, ◌^◌}
use sparcy.Nr
use sparcy.Guest.{Target, Host, Sys}
use sparcy.Guest.Keeps.{Keeps}
use sparcy.Brk.{do_brk, set_brk}
use sparcy.Mmap.{target_mmap}
use sparcy.Syscall.{Args, do_syscall, exit_target, syscall_cases, switch, finish}
use sparcy.Syscall.Basic.{basic_cases}
use sparcy.Syscall.Files.{file_cases}
use sparcy.Syscall.Signals.{signal_cases}
use sparcy.Syscall.Times.{time_cases}
use sparcy.Syscall.Mapping.{mapping_cases}
use sparcy.Syscall.Network.{network_cases}
use sparcy.Syscall.Info.{info_cases}
use sparcy.Syscall.Keeps.Whole.{do_syscall-Keeps}

unfoldable pub sl_exit_called : Target → ℕ
sl_exit_called t = t.target_exit_called

-- What no call changes: the shares of the memory, the stack pointer that the program started with, and
-- where its memory lies.
pub record SameShares (t t' : Target) : Type 0 where
  pub brk_limit : t'.target_brk_limit ≡ t.target_brk_limit
  pub mmap_limit : t'.target_mmap_limit ≡ t.target_mmap_limit
  pub stack_pointer : t'.target_sp ≡ t.target_sp
  pub base : t'.guest_base ≡ t.guest_base
  pub max_mem : t'.guest_max_mem ≡ t.guest_max_mem

module _ (t : Target) where
  exit_target-SameShares : (a : Args) → Keeps (SameShares t) (exit_target a)
  exit_target-SameShares a = record { at = unfold exit_target in λ s h. omega arith }

  do_brk-SameShares : (b : ℕ) → Keeps (SameShares t) (do_brk b)
  do_brk-SameShares b = record { at = unfold do_brk set_brk in λ s h. ground arith }

  target_mmap-SameShares :
      (start len prot flags fd offset : ℕ)
      → Keeps (SameShares t) (target_mmap start len prot flags fd offset)
  target_mmap-SameShares start len prot flags fd offset = record {
    at = unfold target_mmap in λ s h. ground arith;
  }

do_brk-exit_called : (e b : ℕ) → Keeps (λ t. t.target_exit_called ≡ e) (do_brk b)
do_brk-exit_called e b = record { at = unfold do_brk set_brk in λ s h. ground arith }

target_mmap-exit_called :
    (e start len prot flags fd offset : ℕ)
    → Keeps (λ t. t.target_exit_called ≡ e) (target_mmap start len prot flags fd offset)
target_mmap-exit_called e start len prot flags fd offset = record {
  at = unfold target_mmap in λ s h. ground arith;
}

module _ (host : Host) (a : Args) (s : Sys) where
  exits : a.num ≡ Nr.exit → sl_exit_called (do_syscall host a s).1.target ≡ 1
  unfolding do_syscall syscall_cases switch finish sl_exit_called exit_target basic_cases
  exits e = rw e refl

  exits_group : a.num ≡ Nr.exit_group → sl_exit_called (do_syscall host a s).1.target ≡ 1
  unfolding do_syscall syscall_cases switch finish sl_exit_called exit_target basic_cases file_cases
      signal_cases time_cases mapping_cases network_cases info_cases
  exits_group e = rw e refl

  runs_on :
      a.num ≢ Nr.exit
      → a.num ≢ Nr.exit_group
      → sl_exit_called (do_syscall host a s).1.target ≡ sl_exit_called s.target
  unfolding sl_exit_called
  runs_on h k =
      do_syscall-Keeps {Q = λ t. t.target_exit_called ≡ s.target.target_exit_called} host a
        (record {
          at_exit = λ e. absurd (h e);
          at_exit_group = λ e. absurd (k e);
          at_brk = λ _. do_brk-exit_called s.target.target_exit_called a.arg1;
          at_mmap = λ _.
              target_mmap-exit_called s.target.target_exit_called a.arg1 a.arg2 a.arg3 a.arg4 a.arg5
                a.arg6;
          at_mmap2 = λ _.
              target_mmap-exit_called s.target.target_exit_called a.arg1 a.arg2 a.arg3 a.arg4 a.arg5
                (u32 (a.arg6 * 2 ^ 12));
        })
        s refl

-- The calls exit and exit_group set the flag by which the program is seen to have ended, and every
-- other call leaves it as it was, whatever the host does.
pub sl_exit_called-do_syscall :
    (host : Host) (a : Args) (s : Sys)
    → (((a.num ≡ Nr.exit) ⊎ (a.num ≡ Nr.exit_group))
        × (sl_exit_called (do_syscall host a s).1.target ≡ 1))
      ⊎ ((a.num ≢ Nr.exit)
          × (a.num ≢ Nr.exit_group)
          × (sl_exit_called (do_syscall host a s).1.target ≡ sl_exit_called s.target))
sl_exit_called-do_syscall host a s = elim (Bool-cases (a.num == Nr.exit)) [
  | inl e ↦
      let at_exit : a.num ≡ Nr.exit = ground arith in inl (inl at_exit, exits host a s at_exit)
  | inr not_exit ↦ elim (Bool-cases (a.num == Nr.exit_group)) [
    | inl e ↦
        let at_group : a.num ≡ Nr.exit_group = ground arith in
        inl (inr at_group, exits_group host a s at_group)
    | inr not_group ↦
        let h : a.num ≢ Nr.exit = ground arith in
        let k : a.num ≢ Nr.exit_group = ground arith in inr (h, k, runs_on host a s h k)
  ]
]

-- No call changes the shares of the memory, where it lies, or the first stack pointer, whatever its
-- arguments are and whatever the host does.
pub do_syscall-SameShares :
    (host : Host) (a : Args) (s : Sys) → SameShares s.target (do_syscall host a s).1.target
do_syscall-SameShares host a s =
    do_syscall-Keeps {Q = SameShares s.target} host a
      (record {
        at_exit = λ _. exit_target-SameShares s.target a;
        at_exit_group = λ _. exit_target-SameShares s.target a;
        at_brk = λ _. do_brk-SameShares s.target a.arg1;
        at_mmap = λ _. target_mmap-SameShares s.target a.arg1 a.arg2 a.arg3 a.arg4 a.arg5 a.arg6;
        at_mmap2 = λ _.
            target_mmap-SameShares s.target a.arg1 a.arg2 a.arg3 a.arg4 a.arg5
              (u32 (a.arg6 * 2 ^ 12));
      })
      s (omega arith)
