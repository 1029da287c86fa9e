-- ===== src/Tests/SyscallTests.antt =====
-- Tests of `do_syscall` of proj/sparc-linux/syscall.c.
use sparcy.Base.{◌≡◌, arith, some, ◌⊎◌, ◌≢◌, neg32, refl, ℕ, [], ◌∷◌, ◌-◌, ◌^◌}
use sparcy.Nr
use sparcy.Layout.{IsLaidOut}
use sparcy.Guest.{Host, HostFn, next}
use sparcy.Syscall.{do_syscall, sys}
use sparcy.Syscall.Errors.{Reports, fails, sys-Reports}
use sparcy.Syscall.Frame.{do_syscall-IsLaidOut, do_syscall_frame}
use sparcy.Errno.Target
use sparcy.Syscall.Unknown.{do_syscall_unknown}
use sparcy.Syscall.Exit.{
  sl_exit_called, SameShares, sl_exit_called-do_syscall, do_syscall-SameShares,
}
use sparcy.Tests.Fixtures.{small_target, small_sys, quiet_host, call_with}

do_syscall-IsLaidOut_example :
    IsLaidOut 0x8000 (do_syscall quiet_host (call_with Nr.brk 0x8010 0) small_sys).1.target
do_syscall-IsLaidOut_example =
    do_syscall-IsLaidOut quiet_host 0x8000 (call_with Nr.brk 0x8010 0) small_sys (omega arith)
      (omega arith)

do_syscall_frame_example :
    (do_syscall quiet_host (call_with Nr.write 1 0x9000) small_sys).1.target ≡ small_target
do_syscall_frame_example =
    do_syscall_frame quiet_host (call_with Nr.write 1 0x9000) small_sys (ground arith)

do_syscall_unknown_example :
    do_syscall quiet_host (call_with 400 0 0) small_sys ≡ (some (neg32 Target.enosys), small_sys)
do_syscall_unknown_example =
    do_syscall_unknown quiet_host (call_with 400 0 0) small_sys (omega arith)

do_syscall-SameShares_example :
    SameShares small_target (do_syscall quiet_host (call_with Nr.mmap 0 5000) small_sys).1.target
do_syscall-SameShares_example =
    do_syscall-SameShares quiet_host (call_with Nr.mmap 0 5000) small_sys

sl_exit_called-do_syscall_example :
    let a = call_with Nr.exit 0 0 in
    (((a.num ≡ Nr.exit) ⊎ (a.num ≡ Nr.exit_group))
      × (sl_exit_called (do_syscall quiet_host a small_sys).1.target ≡ 1))
    ⊎ ((a.num ≢ Nr.exit)
        × (a.num ≢ Nr.exit_group)
        × (sl_exit_called (do_syscall quiet_host a small_sys).1.target
            ≡ sl_exit_called small_target))
sl_exit_called-do_syscall_example =
    sl_exit_called-do_syscall quiet_host (call_with Nr.exit 0 0) small_sys

-- A host on which every call fails with ENOENT.
abbrev failing_host : Host
failing_host trace m call = record { result = 2 ^ 64 - 1; error = some 2; memory = m; out = [] }

sys-Reports_example :
    let r = failing_host [] small_sys.memory (record { function = HostFn.close; args = 3 ∷ [] }) in
    (ret : ℕ) × ((sys failing_host HostFn.close (3 ∷ []) small_sys).0 ≡ next ret)
    × Reports r ret
    × ((sys failing_host HostFn.close (3 ∷ []) small_sys).1.memory ≡ r.memory)
    × ((sys failing_host HostFn.close (3 ∷ []) small_sys).1.target ≡ small_target)
sys-Reports_example =
    sys-Reports failing_host HostFn.close (3 ∷ []) small_sys
      (fails 2 refl refl (omega arith) (omega arith))
