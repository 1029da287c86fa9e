-- ===== src/Structs/Constants/Files.antt =====
-- Commands of fcntl and futex, and flags of open, in proj/sparc-linux/syscall_defs.h.
use Prim.Native.String.{String}
use sparcy.Base.{ℕ, List, [], ◌∷◌, bit_or, ◌+◌}

abbrev pub fcntl_commands : List (String × ℕ)
fcntl_commands =
    ("F_DUPFD", 0) ∷ ("F_GETFD", 1) ∷ ("F_SETFD", 2) ∷ ("F_GETFL", 3) ∷ ("F_SETFL", 4) ∷ []

abbrev pub lock_commands : List (String × ℕ)
lock_commands =
    ("F_GETLK", 5)
    ∷ ("F_SETLK", 6)
    ∷ ("F_SETLKW", 7)
    ∷ ("F_SETOWN", 8)
    ∷ ("F_GETOWN", 9)
    ∷ ("F_SETOWN_EX", 15)
    ∷ ("F_GETOWN_EX", 16)
    ∷ []

abbrev pub lock_kinds : List (String × ℕ)
lock_kinds =
    ("F_RDLCK", 0)
    ∷ ("F_WRLCK", 1)
    ∷ ("F_UNLCK", 2)
    ∷ ("F_EXLCK", 4)
    ∷ ("F_SHLCK", 8)
    ∷ ("F_SETSIG", 10)
    ∷ ("F_GETSIG", 11)
    ∷ []

abbrev pub long_lock_commands : List (String × ℕ)
long_lock_commands =
    ("F_GETLK64", 12)
    ∷ ("F_SETLK64", 13)
    ∷ ("F_SETLKW64", 14)
    ∷ ("F_LINUX_SPECIFIC_BASE", 1024)
    ∷ ("F_SETLEASE", 1024 + 0)
    ∷ ("F_GETLEASE", 1024 + 1)
    ∷ ("F_DUPFD_CLOEXEC", 1024 + 6)
    ∷ ("F_NOTIFY", 1024 + 2)
    ∷ []

abbrev pub open_flags : List (String × ℕ)
open_flags =
    ("O_APPEND", 0x0008)
    ∷ ("FASYNC", 0x0040)
    ∷ ("O_CREAT", 0x0200)
    ∷ ("O_TRUNC", 0x0400)
    ∷ ("O_EXCL", 0x0800)
    ∷ ("O_DSYNC", 0x2000)
    ∷ ("O_NONBLOCK", 0x4000)
    ∷ ("O_NDELAY", bit_or 0x0004 0x4000)
    ∷ ("O_NOCTTY", 0x8000)
    ∷ ("O_LARGEFILE", 0x40000)
    ∷ ("O_DIRECT", 0x100000)
    ∷ ("O_NOATIME", 0x200000)
    ∷ ("O_CLOEXEC", 0x400000)
    ∷ ("__O_SYNC", 0x800000)
    ∷ ("O_PATH", 0x1000000)
    ∷ []

abbrev pub access_modes : List (String × ℕ)
access_modes = ("O_ACCMODE", 3) ∷ ("O_RDONLY", 0) ∷ ("O_WRONLY", 1) ∷ ("O_RDWR", 2) ∷ []

abbrev pub directory_flags : List (String × ℕ)
directory_flags = ("O_DIRECTORY", 65536) ∷ ("O_NOFOLLOW", 131072) ∷ []

abbrev pub futex_operations : List (String × ℕ)
futex_operations =
    ("FUTEX_WAIT", 0)
    ∷ ("FUTEX_WAKE", 1)
    ∷ ("FUTEX_FD", 2)
    ∷ ("FUTEX_REQUEUE", 3)
    ∷ ("FUTEX_CMP_REQUEUE", 4)
    ∷ ("FUTEX_WAKE_OP", 5)
    ∷ ("FUTEX_LOCK_PI", 6)
    ∷ ("FUTEX_UNLOCK_PI", 7)
    ∷ ("FUTEX_TRYLOCK_PI", 8)
    ∷ ("FUTEX_WAIT_BITSET", 9)
    ∷ ("FUTEX_WAKE_BITSET", 10)
    ∷ ("FUTEX_PRIVATE_FLAG", 128)
    ∷ ("FUTEX_CLOCK_REALTIME", 256)
    ∷ []
