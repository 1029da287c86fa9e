-- ===== src/Structs/Signals.antt =====
-- Signals in proj/sparc-linux/syscall_defs.h: sets, actions and what is told with a signal.
use sparcy.Base.{ℕ, zero, suc, ◌+◌, ◌-◌, ◌*◌, ◌/◌, List, [], ◌∷◌, neg32}
use sparcy.Memory.{tswapal}
use sparcy.Structs.{CType, end, ◌⦂◌▹◌, int32, int64, array, struct, union, sizeof}

abbrev pub target_nsig : ℕ
target_nsig = 64

abbrev pub target_nsig_bpw : ℕ
target_nsig_bpw = 32

abbrev pub target_nsig_words : ℕ
target_nsig_words = target_nsig / target_nsig_bpw

abbrev pub target_sigset_t : CType
target_sigset_t = struct ("sig" ⦂ array int32 target_nsig_words ▹ end)

-- The words of a set. `tswap_sigset` reads and writes as many of them.
unfoldable pub tswap_words : ℕ → List ℕ → List ℕ
tswap_words zero s = []
tswap_words (suc n) [] = []
tswap_words (suc n) (w ∷ s) = tswapal w ∷ tswap_words n s

unfoldable pub tswap_sigset : List ℕ → List ℕ
unfolding tswap_words
tswap_sigset s = tswap_words target_nsig_words s

unfoldable pub zero_words : ℕ → List ℕ
zero_words zero = []
zero_words (suc n) = 0 ∷ zero_words n

unfoldable pub target_siginitset : ℕ → List ℕ
unfolding zero_words
target_siginitset set = set ∷ zero_words (target_nsig_words - 1)

abbrev pub target_sig_dfl : ℕ
target_sig_dfl = 0

abbrev pub target_sig_ign : ℕ
target_sig_ign = 1

abbrev pub target_sig_err : ℕ
target_sig_err = neg32 1

abbrev pub target_old_sigaction : CType
target_old_sigaction =
    struct
      ("_sa_handler" ⦂ int32 ▹ "sa_mask" ⦂ int32 ▹ "sa_flags" ⦂ int32 ▹ "sa_restorer" ⦂ int32 ▹ end)

abbrev pub target_sigaction : CType
target_sigaction = struct (
    "_sa_handler"
    ⦂ int32 ▹ "sa_flags"
    ⦂ int32 ▹ "sa_restorer"
    ⦂ int32 ▹ "sa_mask"
    ⦂ target_sigset_t ▹ end)

abbrev pub target_sigval_t : CType
target_sigval_t = union ("sival_int" ⦂ int32 ▹ "sival_ptr" ⦂ int32 ▹ end)

abbrev pub target_si_max_size : ℕ
target_si_max_size = 128

abbrev pub target_si_pad_size : ℕ
target_si_pad_size = target_si_max_size / 4 - 3

-- What `_sifields` holds, by the kind of the signal.
abbrev pub target_sifields : CType
target_sifields = union (
    "_pad"
    ⦂ array int32 target_si_pad_size ▹ "_kill"
    ⦂ struct ("_pid" ⦂ int32 ▹ "_uid" ⦂ int32 ▹ end) ▹ "_timer"
    ⦂ struct ("_timer1" ⦂ int32 ▹ "_timer2" ⦂ int32 ▹ end) ▹ "_rt"
    ⦂ struct ("_pid" ⦂ int32 ▹ "_uid" ⦂ int32 ▹ "_sigval" ⦂ target_sigval_t ▹ end) ▹ "_sigchld"
    ⦂ struct (
        "_pid"
        ⦂ int32 ▹ "_uid"
        ⦂ int32 ▹ "_status"
        ⦂ int32 ▹ "_utime"
        ⦂ int32 ▹ "_stime"
        ⦂ int32 ▹ end) ▹
      "_sigfault"
    ⦂ struct ("_addr" ⦂ int32 ▹ end) ▹ "_sigpoll"
    ⦂ struct ("_band" ⦂ int32 ▹ "_fd" ⦂ int32 ▹ end) ▹ end)

abbrev pub target_siginfo_t : CType
target_siginfo_t = struct (
    "si_signo"
    ⦂ int32 ▹ "si_errno"
    ⦂ int32 ▹ "si_code"
    ⦂ int32 ▹ "_sifields"
    ⦂ target_sifields ▹ end)

abbrev pub target_sigev_max_size : ℕ
target_sigev_max_size = 64

unfoldable pub target_sigev_preamble_size : ℕ
unfolding sizeof
target_sigev_preamble_size = 4 * 2 + sizeof target_sigval_t

unfoldable pub target_sigev_pad_size : ℕ
unfolding target_sigev_preamble_size
target_sigev_pad_size = (target_sigev_max_size - target_sigev_preamble_size) / 4

-- The pointers of `_sigev_thread` are the host's.
unfoldable pub target_sigevent : CType
unfolding target_sigev_pad_size
target_sigevent = struct (
    "sigev_value"
    ⦂ target_sigval_t ▹ "sigev_signo"
    ⦂ int32 ▹ "sigev_notify"
    ⦂ int32 ▹ "_sigev_un"
    ⦂ union (
        "_pad"
        ⦂ array int32 target_sigev_pad_size ▹ "_tid"
        ⦂ int32 ▹ "_sigev_thread"
        ⦂ struct ("_function" ⦂ int64 ▹ "_attribute" ⦂ int64 ▹ end) ▹ end) ▹
      end)
