-- ===== src/Syscall/Select/Whole.antt =====
-- The call _newselect of `do_syscall` in proj/sparc-linux/syscall.c without a timeout, as a whole.
use mathlib.Core.Path.{subst}
use sparcy.Base.{ℕ, ◌≤◌, ◌≡◌, refl, ap, sym, ◌∙◌}
use sparcy.Nr
use sparcy.Guest.{Host, HostFn, HostCall, Sys}
use sparcy.Convert.FdSet.{fd_setsize, do_select}
use sparcy.Syscall.{Args, do_syscall, syscall_cases, finish}
use sparcy.Syscall.Basic.{basic_cases}
use sparcy.Syscall.Files.{file_cases}
use sparcy.Syscall.Signals.{signal_cases}
use sparcy.Syscall.Times.{time_cases}
use sparcy.Syscall.Mapping.{mapping_cases}
use sparcy.Syscall.Network.{network_cases}
use sparcy.Syscall.Info.{info_cases}
use sparcy.Syscall.Entries.{entry_cases}
use sparcy.Syscall.Dispatch.{Has, Has_at, do_syscall-Has}
use sparcy.Syscall.Errors.{Answers}
use sparcy.Syscall.Select.{SelectEnds, AreSets}
use sparcy.Syscall.Select.Steps.{do_select-SelectEnds}

newselect-Has :
    (host : Host)
    → Has
        (Nr.newselect, λ (a : Args). do_select host a.arg1 a.arg2 a.arg3 a.arg4 a.arg5)
        (syscall_cases host)
unfolding syscall_cases basic_cases file_cases signal_cases time_cases mapping_cases network_cases
    info_cases entry_cases
newselect-Has host = Has_at _ 158 refl

-- A guest calls _newselect with no timeout, for at most 1024 descriptors and sets that are not NULL on the
-- host and share no bytes, or are left out, of a host whose select fails with an error from 1 to 1199 or
-- succeeds with a result below 2 ^ 32 - 4096. The host is asked once, for the sets whose descriptor `i` is
-- bit `i % 32` of the guest's word `i / 32`. An error reaches the guest as its negated number, and memory
-- is as the host left it; after a success the value is the host's, and each of the guest's sets is the
-- host's. The globals stay.
pub do_syscall-SelectEnds :
    (host : Host) (a : Args) (s : Sys)
    → a.num ≡ Nr.newselect
    → a.arg5 ≡ 0
    → a.arg1 ≤ fd_setsize
    → AreSets s.target a.arg1 a.arg2 a.arg3 a.arg4
    → ((call : HostCall) → call.function ≡ HostFn.select → Answers (host s.trace s.memory call))
    → SelectEnds host a.arg1 a.arg2 a.arg3 a.arg4 s (do_syscall host a s)
do_syscall-SelectEnds host a s number no_time small sets answers =
    let ends = do_select-SelectEnds host a.arg1 a.arg2 a.arg3 a.arg4 s small sets answers in
    let run = do_syscall-Has host _ a s (newselect-Has host) number in
    let same : do_syscall host a s ≡ finish (do_select host a.arg1 a.arg2 a.arg3 a.arg4 0 s) =
      run ∙ ap (λ (t : ℕ). finish (do_select host a.arg1 a.arg2 a.arg3 a.arg4 t s)) no_time in
    subst (SelectEnds host a.arg1 a.arg2 a.arg3 a.arg4 s) (sym same) ends
