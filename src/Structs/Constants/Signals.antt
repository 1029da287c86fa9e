-- ===== src/Structs/Constants/Signals.antt =====
-- The numbers of signals, and flags and codes that go with them, in proj/sparc-linux/syscall_defs.h.
use Prim.Native.String.{String}
use sparcy.Base.{ℕ, List, [], ◌∷◌, neg32}

abbrev pub signal_action_flags : List (String × ℕ)
signal_action_flags =
    ("SA_NOCLDSTOP", 8)
    ∷ ("SA_NOCLDWAIT", 0x100)
    ∷ ("SA_SIGINFO", 0x200)
    ∷ ("SA_ONSTACK", 1)
    ∷ ("SA_RESTART", 2)
    ∷ ("SA_NODEFER", 0x20)
    ∷ ("SA_RESETHAND", 4)
    ∷ []

abbrev pub signals : List (String × ℕ)
signals =
    ("SIGHUP", 1)
    ∷ ("SIGINT", 2)
    ∷ ("SIGQUIT", 3)
    ∷ ("SIGILL", 4)
    ∷ ("SIGTRAP", 5)
    ∷ ("SIGABRT", 6)
    ∷ ("SIGIOT", 6)
    ∷ ("SIGSTKFLT", 7)
    ∷ ("SIGFPE", 8)
    ∷ ("SIGKILL", 9)
    ∷ ("SIGBUS", 10)
    ∷ ("SIGSEGV", 11)
    ∷ ("SIGSYS", 12)
    ∷ ("SIGPIPE", 13)
    ∷ ("SIGALRM", 14)
    ∷ ("SIGTERM", 15)
    ∷ ("SIGURG", 16)
    ∷ ("SIGSTOP", 17)
    ∷ ("SIGTSTP", 18)
    ∷ ("SIGCONT", 19)
    ∷ ("SIGCHLD", 20)
    ∷ ("SIGTTIN", 21)
    ∷ ("SIGTTOU", 22)
    ∷ ("SIGIO", 23)
    ∷ ("SIGXCPU", 24)
    ∷ ("SIGXFSZ", 25)
    ∷ ("SIGVTALRM", 26)
    ∷ ("SIGPROF", 27)
    ∷ ("SIGWINCH", 28)
    ∷ ("SIGPWR", 29)
    ∷ ("SIGUSR1", 30)
    ∷ ("SIGUSR2", 31)
    ∷ ("SIGRTMIN", 32)
    ∷ []

abbrev pub signal_mask_calls : List (String × ℕ)
signal_mask_calls = ("SIG_BLOCK", 0x01) ∷ ("SIG_UNBLOCK", 0x02) ∷ ("SIG_SETMASK", 0x04) ∷ []

abbrev pub signal_codes : List (String × ℕ)
signal_codes =
    ("SI_USER", 0)
    ∷ ("SI_KERNEL", 0x80)
    ∷ ("SI_QUEUE", neg32 1)
    ∷ ("SI_TIMER", neg32 2)
    ∷ ("SI_MESGQ", neg32 3)
    ∷ ("SI_ASYNCIO", neg32 4)
    ∷ ("SI_SIGIO", neg32 5)
    ∷ ("ILL_ILLOPC", 1)
    ∷ ("ILL_ILLOPN", 2)
    ∷ ("ILL_ILLADR", 3)
    ∷ ("ILL_ILLTRP", 4)
    ∷ ("ILL_PRVOPC", 5)
    ∷ ("ILL_PRVREG", 6)
    ∷ ("ILL_COPROC", 7)
    ∷ ("ILL_BADSTK", 8)
    ∷ ("FPE_INTDIV", 1)
    ∷ ("FPE_INTOVF", 2)
    ∷ ("FPE_FLTDIV", 3)
    ∷ ("FPE_FLTOVF", 4)
    ∷ ("FPE_FLTUND", 5)
    ∷ ("FPE_FLTRES", 6)
    ∷ ("FPE_FLTINV", 7)
    ∷ ("FPE_FLTSUB", 8)
    ∷ ("NSIGFPE", 8)
    ∷ ("SEGV_MAPERR", 1)
    ∷ ("SEGV_ACCERR", 2)
    ∷ ("BUS_ADRALN", 1)
    ∷ ("BUS_ADRERR", 2)
    ∷ ("BUS_OBJERR", 3)
    ∷ ("TRAP_BRKPT", 1)
    ∷ ("TRAP_TRACE", 2)
    ∷ []
