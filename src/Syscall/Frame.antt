-- ===== src/Syscall/Frame.antt =====
-- What a whole call of `do_syscall` (proj/sparc-linux/syscall.c) does to the target's globals.
use sparcy.Base.{ℕ, ◌-◌, ◌*◌, ◌^◌, ◌≤◌, ◌≡◌, refl, ◌≢◌, arith, u32}
use sparcy.Nr
use sparcy.Guest.{Host, Sys, Flow, next, efault, unimplemented, hang}
use sparcy.Guest.Keeps.{Keeps}
use sparcy.Brk.{do_brk}
use sparcy.Mmap.{target_mmap}
use sparcy.Layout.{IsLaidOut}
use sparcy.Layout.Heap.{do_brk-Ends, Ends}
use sparcy.Layout.Blocks.{target_mmap-Advances}
use sparcy.Syscall.{Args, do_syscall, exit_target}
use sparcy.Syscall.Keeps.Whole.{do_syscall-Keeps}

-- The sizes that a call may ask for without a sum of 32 bits wrapping: a break below the last page
-- of the address space, and a block of at most 2 GiB less a page.
pub record IsModest (a : Args) : Type 0 where
  pub brk_below : a.num ≡ Nr.brk → a.arg1 ≤ 2 ^ 32 - 4096
  pub mmap_below : a.num ≡ Nr.mmap → a.arg2 ≤ 2 ^ 31 - 4096
  pub mmap2_below : a.num ≡ Nr.mmap2 → a.arg2 ≤ 2 ^ 31 - 4096

-- The calls that assign to no global.
pub record IsPlain (a : Args) : Type 0 where
  pub not_exit : a.num ≢ Nr.exit
  pub not_exit_group : a.num ≢ Nr.exit_group
  pub not_brk : a.num ≢ Nr.brk
  pub not_mmap : a.num ≢ Nr.mmap
  pub not_mmap2 : a.num ≢ Nr.mmap2

Ends-IsLaidOut :
    (floor : ℕ) (s : Sys) (e : Flow ℕ × Sys) → Ends floor s e → IsLaidOut floor e.1.target
Ends-IsLaidOut floor s (next r, s') h = h.1
Ends-IsLaidOut floor s (efault, s') h = absurd h
Ends-IsLaidOut floor s (unimplemented, s') h = absurd h
Ends-IsLaidOut floor s (hang, s') h = absurd h

module _ (floor : ℕ) where
  exit_target-IsLaidOut : (a : Args) → Keeps (IsLaidOut floor) (exit_target a)
  exit_target-IsLaidOut a = record { at = unfold exit_target in λ s h. omega arith }

  do_brk-IsLaidOut : (b : ℕ) → b ≤ 2 ^ 32 - 4096 → Keeps (IsLaidOut floor) (do_brk b)
  do_brk-IsLaidOut b small = record {
    at = λ s h. Ends-IsLaidOut floor s (do_brk b s) (do_brk-Ends floor b s h small);
  }

  target_mmap-IsLaidOut :
      (start len prot flags fd offset : ℕ)
      → len ≤ 2 ^ 31 - 4096
      → Keeps (IsLaidOut floor) (target_mmap start len prot flags fd offset)
  target_mmap-IsLaidOut start len prot flags fd offset small = record {
    at = λ s h. (target_mmap-Advances floor start len prot flags fd offset s h small).laid_out;
  }

-- Whatever the host does, a system call that asks for no oversized memory keeps the layout of the
-- target's memory: the heap and the mapped blocks stay in their shares.
pub do_syscall-IsLaidOut :
    (host : Host) (floor : ℕ) (a : Args) (s : Sys)
    → IsModest a
    → IsLaidOut floor s.target
    → IsLaidOut floor (do_syscall host a s).1.target
do_syscall-IsLaidOut host floor a s m l =
    do_syscall-Keeps host a
      (record {
        at_exit = λ _. exit_target-IsLaidOut floor a;
        at_exit_group = λ _. exit_target-IsLaidOut floor a;
        at_brk = λ e. do_brk-IsLaidOut floor a.arg1 (m.brk_below e);
        at_mmap = λ e.
            target_mmap-IsLaidOut floor a.arg1 a.arg2 a.arg3 a.arg4 a.arg5 a.arg6 (m.mmap_below e);
        at_mmap2 = λ e.
            target_mmap-IsLaidOut floor a.arg1 a.arg2 a.arg3 a.arg4 a.arg5 (u32 (a.arg6 * 2 ^ 12))
              (m.mmap2_below e);
      })
      s l

-- A system call other than exit, exit_group, brk, mmap and mmap2 changes none of the target's
-- globals, whatever the host does.
pub do_syscall_frame :
    (host : Host) (a : Args) (s : Sys) → IsPlain a → (do_syscall host a s).1.target ≡ s.target
do_syscall_frame host a s p =
    do_syscall-Keeps {Q = λ t. t ≡ s.target} host a
      (record {
        at_exit = λ e. absurd (p.not_exit e);
        at_exit_group = λ e. absurd (p.not_exit_group e);
        at_brk = λ e. absurd (p.not_brk e);
        at_mmap = λ e. absurd (p.not_mmap e);
        at_mmap2 = λ e. absurd (p.not_mmap2 e);
      })
      s refl
