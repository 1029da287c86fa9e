-- ===== src/Syscall/Keeps/Whole.antt =====
-- The whole `switch` of `do_syscall` in proj/sparc-linux/syscall.c: it keeps what `do_brk`,
-- `target_mmap` and the assignment to `target_exit_called` keep.
use sparcy.Base.{ℕ, ◌≡◌, refl, sym, u32, ◌*◌, ◌^◌}
use mathlib.Core.Path.{subst}
use sparcy.Nr
use sparcy.Guest.{Target, Host, Sys, Flow, next, efault, unimplemented, hang}
use sparcy.Guest.Keeps.{Keeps}
use sparcy.Brk.{do_brk}
use sparcy.Mmap.{target_mmap, target_munmap}
use sparcy.Syscall.Defs.{Args, switch, finish}
use sparcy.Syscall.Basic.{basic_cases, exit_target}
use sparcy.Syscall.Mapping.{mapping_cases}
use sparcy.Syscall.Info.{info_cases}
use sparcy.Syscall.{syscall_cases, do_syscall}
use sparcy.Syscall.Keeps.{KeepsCases, KeepsCases-append, Keeps-switch, case_rules}
use sparcy.Syscall.Keeps.Groups.{
  file_cases-Keeps, signal_cases-Keeps, time_cases-Keeps, network_cases-Keeps, entry_cases-Keeps,
  vector_cases-Keeps, control_cases-Keeps, user_cases-Keeps, wide_cases-Keeps, rest_cases-Keeps,
}

-- What must be known of the calls that assign to the globals.
pub record Assigns (Q : Target → Type 0) (a : Args) : Type 0 where
  pub at_exit : a.num ≡ Nr.exit → Keeps Q (exit_target a)
  pub at_exit_group : a.num ≡ Nr.exit_group → Keeps Q (exit_target a)
  pub at_brk : a.num ≡ Nr.brk → Keeps Q (do_brk a.arg1)
  pub at_mmap : a.num ≡ Nr.mmap → Keeps Q (target_mmap a.arg1 a.arg2 a.arg3 a.arg4 a.arg5 a.arg6)
  pub at_mmap2 :
      a.num ≡ Nr.mmap2
      → Keeps Q (target_mmap a.arg1 a.arg2 a.arg3 a.arg4 a.arg5 (u32 (a.arg6 * 2 ^ 12)))

module _ {Q : Target → Type 0} where
  Keeps-munmap : (start len : ℕ) → Keeps Q (target_munmap start len)
  Keeps-munmap start len = record { at = unfold target_munmap in λ s h. h }

module _ {Q : Target → Type 0} (host : Host) (a : Args) (h : Assigns Q a) where
  basic_cases-Keeps : KeepsCases Q a (basic_cases host)
  basic_cases-Keeps =
      unfold basic_cases in search (case_rules, h.at_exit, h.at_brk) depth 80 fits 20000

  mapping_cases-Keeps : KeepsCases Q a (mapping_cases host)
  mapping_cases-Keeps =
      unfold mapping_cases in
      search (case_rules, h.at_mmap, h.at_mmap2, Keeps-munmap) depth 80 fits 20000

  info_cases-Keeps : KeepsCases Q a (info_cases host)
  info_cases-Keeps = unfold info_cases in search (case_rules, h.at_exit_group) depth 80 fits 20000

  syscall_cases-Keeps : KeepsCases Q a (syscall_cases host)
  unfolding syscall_cases
  syscall_cases-Keeps = KeepsCases-append basic_cases-Keeps (
      KeepsCases-append (file_cases-Keeps host a) (
        KeepsCases-append (signal_cases-Keeps host a) (
          KeepsCases-append (time_cases-Keeps host a) (
            KeepsCases-append mapping_cases-Keeps (
              KeepsCases-append (network_cases-Keeps host a) (
                KeepsCases-append info_cases-Keeps (
                  KeepsCases-append (entry_cases-Keeps host a) (
                    KeepsCases-append (vector_cases-Keeps host a) (
                      KeepsCases-append (control_cases-Keeps host a) (
                        KeepsCases-append (user_cases-Keeps host a) (
                          KeepsCases-append (wide_cases-Keeps host a)
                            (rest_cases-Keeps host a))))))))))))

finish_target : (r : Flow ℕ) (s : Sys) → (finish (r, s)).1.target ≡ s.target
unfolding finish
finish_target (next ret) s = refl
finish_target efault s = refl
finish_target unimplemented s = refl
finish_target hang s = refl

module _ {Q : Target → Type 0} (host : Host) (a : Args) where
  -- A call keeps what its case keeps.
  pub do_syscall-Keeps : Assigns Q a → (s : Sys) → Q s.target → Q (do_syscall host a s).1.target
  unfolding do_syscall
  do_syscall-Keeps h s q =
      subst Q (sym (finish_target (switch (syscall_cases host) a.num a s).0 _))
        ((Keeps-switch (syscall_cases-Keeps host a h)).at s q)
