-- ===== src/Syscall.antt =====
-- `do_syscall` of proj/sparc-linux/syscall.c: the `switch` over the system call numbers, in the
-- source's order. Cases that the target's and the host's configuration leave out are not listed.
mod Defs
pub mod Basic
mod Files
mod Signals
mod Times
mod Mapping
mod Network
mod Info
pub mod Entries
mod Vectors
mod Control
mod Users
mod Wide
mod Rest
pub mod Unknown
pub mod Reach
pub mod Dispatch
pub mod Keeps
pub mod Frame
pub mod Exit
pub mod Errors
pub mod Status
pub mod Select
pub use Defs.{Args, Handler, Case}
unfoldable pub use Defs.{switch, finish, sys, with_path, with_paths}
unfoldable pub use Basic.{exit_target}
unfoldable pub use Entries.{llseek, swap_dirents}
use sparcy.Base.{ℕ, List, ◌++◌, Option}
use sparcy.Guest.{Host, Sys}
use Basic.{basic_cases}
use Files.{file_cases}
use Signals.{signal_cases}
use Times.{time_cases}
use Mapping.{mapping_cases}
use Network.{network_cases}
use Info.{info_cases}
use Entries.{entry_cases}
use Vectors.{vector_cases}
use Control.{control_cases}
use Users.{user_cases}
use Wide.{wide_cases}
use Rest.{rest_cases}

unfoldable pub syscall_cases : Host → List Case
syscall_cases host =
    basic_cases host
    ++ (file_cases host
        ++ (signal_cases host
            ++ (time_cases host
                ++ (mapping_cases host
                    ++ (network_cases host
                        ++ (info_cases host
                            ++ (entry_cases host
                                ++ (vector_cases host
                                    ++ (control_cases host
                                        ++ (user_cases host
                                            ++ (wide_cases host ++ rest_cases host)))))))))))

-- The value returned, unless a loop does not end, and the state afterwards. The message that an
-- unsupported call prints is left out.
unfoldable pub do_syscall : Host → Args → Sys → Option ℕ × Sys
unfolding switch finish
do_syscall host a s = finish (switch (syscall_cases host) a.num a s)
