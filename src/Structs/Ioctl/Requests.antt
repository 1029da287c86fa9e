-- ===== src/Structs/Ioctl/Requests.antt =====
-- Ioctl requests of block devices, of the device mapper and of terminals, in proj/sparc-linux/syscall_defs.h
-- and termbits.h.
use Prim.Native.String.{String}
use sparcy.Base.{ℕ, List, [], ◌∷◌}
use sparcy.Structs.{int8, int32}
use sparcy.Structs.Ioctl.{target_io, target_ior, target_iow, target_iowru}
use sparcy.Structs.Terminals.{target_termio, target_termios}

abbrev pub block_requests : List (String × ℕ)
block_requests =
    ("BLKROSET", target_io 0x12 93)
    ∷ ("BLKROGET", target_io 0x12 94)
    ∷ ("BLKRRPART", target_io 0x12 95)
    ∷ ("BLKGETSIZE", target_io 0x12 96)
    ∷ ("BLKFLSBUF", target_io 0x12 97)
    ∷ ("BLKRASET", target_io 0x12 98)
    ∷ ("BLKRAGET", target_io 0x12 99)
    ∷ ("BLKFRASET", target_io 0x12 100)
    ∷ ("BLKFRAGET", target_io 0x12 101)
    ∷ ("BLKSECTSET", target_io 0x12 102)
    ∷ ("BLKSECTGET", target_io 0x12 103)
    ∷ ("BLKSSZGET", target_io 0x12 104)
    ∷ ("BLKPG", target_io 0x12 105)
    ∷ ("BLKBSZGET", target_ior 0x12 112 int32)
    ∷ ("BLKBSZSET", target_iow 0x12 113 int32)
    ∷ ("BLKGETSIZE64", target_ior 0x12 114 int32)
    ∷ ("FIBMAP", target_io 0x00 1)
    ∷ ("FIGETBSZ", target_io 0x00 2)
    ∷ []

abbrev pub mapper_requests : List (String × ℕ)
mapper_requests =
    ("DM_VERSION", target_iowru 0xfd 0x00)
    ∷ ("DM_REMOVE_ALL", target_iowru 0xfd 0x01)
    ∷ ("DM_LIST_DEVICES", target_iowru 0xfd 0x02)
    ∷ ("DM_DEV_CREATE", target_iowru 0xfd 0x03)
    ∷ ("DM_DEV_REMOVE", target_iowru 0xfd 0x04)
    ∷ ("DM_DEV_RENAME", target_iowru 0xfd 0x05)
    ∷ ("DM_DEV_SUSPEND", target_iowru 0xfd 0x06)
    ∷ ("DM_DEV_STATUS", target_iowru 0xfd 0x07)
    ∷ ("DM_DEV_WAIT", target_iowru 0xfd 0x08)
    ∷ ("DM_TABLE_LOAD", target_iowru 0xfd 0x09)
    ∷ ("DM_TABLE_CLEAR", target_iowru 0xfd 0x0a)
    ∷ ("DM_TABLE_DEPS", target_iowru 0xfd 0x0b)
    ∷ ("DM_TABLE_STATUS", target_iowru 0xfd 0x0c)
    ∷ ("DM_LIST_VERSIONS", target_iowru 0xfd 0x0d)
    ∷ ("DM_TARGET_MSG", target_iowru 0xfd 0x0e)
    ∷ ("DM_DEV_SET_GEOMETRY", target_iowru 0xfd 0x0f)
    ∷ []

abbrev pub terminal_requests : List (String × ℕ)
terminal_requests =
    ("TCGETA", target_ior b'T' 1 target_termio)
    ∷ ("TCSETA", target_iow b'T' 2 target_termio)
    ∷ ("TCSETAW", target_iow b'T' 3 target_termio)
    ∷ ("TCSETAF", target_iow b'T' 4 target_termio)
    ∷ ("TCSBRK", target_io b'T' 5)
    ∷ ("TCXONC", target_io b'T' 6)
    ∷ ("TCFLSH", target_io b'T' 7)
    ∷ ("TCGETS", target_ior b'T' 8 target_termios)
    ∷ ("TCSETS", target_iow b'T' 9 target_termios)
    ∷ ("TCSETSW", target_iow b'T' 10 target_termios)
    ∷ ("TCSETSF", target_iow b'T' 11 target_termios)
    ∷ ("TIOCGETD", target_ior b't' 0 int32)
    ∷ ("TIOCSETD", target_iow b't' 1 int32)
    ∷ ("TIOCEXCL", target_io b't' 13)
    ∷ ("TIOCNXCL", target_io b't' 14)
    ∷ ("TIOCCONS", target_io b't' 36)
    ∷ ("TIOCGSOFTCAR", target_ior b't' 100 int32)
    ∷ ("TIOCSSOFTCAR", target_iow b't' 101 int32)
    ∷ ("TIOCMGET", target_ior b't' 106 int32)
    ∷ ("TIOCMBIC", target_iow b't' 107 int32)
    ∷ ("TIOCMBIS", target_iow b't' 108 int32)
    ∷ ("TIOCMSET", target_iow b't' 109 int32)
    ∷ ("TIOCSTART", target_io b't' 110)
    ∷ ("TIOCSTOP", target_io b't' 111)
    ∷ ("TIOCPKT", target_iow b't' 112 int32)
    ∷ ("TIOCNOTTY", target_io b't' 113)
    ∷ ("TIOCSTI", target_iow b't' 114 int8)
    ∷ ("TIOCOUTQ", target_ior b't' 115 int32)
    ∷ ("TIOCCBRK", target_io b't' 122)
    ∷ ("TIOCSBRK", target_io b't' 123)
    ∷ ("TIOCSPGRP", target_iow b't' 130 int32)
    ∷ ("TIOCGPGRP", target_ior b't' 131 int32)
    ∷ ("TIOCSCTTY", target_io b't' 132)
    ∷ ("TIOCGSID", target_ior b't' 133 int32)
    ∷ ("TIOCGPTN", target_ior b't' 134 int32)
    ∷ ("TIOCSPTLCK", target_iow b't' 135 int32)
    ∷ []

abbrev pub file_requests : List (String × ℕ)
file_requests =
    ("FIOCLEX", target_io b'f' 1)
    ∷ ("FIONCLEX", target_io b'f' 2)
    ∷ ("FIOASYNC", target_iow b'f' 125 int32)
    ∷ ("FIONBIO", target_iow b'f' 126 int32)
    ∷ ("FIONREAD", target_ior b'f' 127 int32)
    ∷ ("TIOCINQ", (target_ior b'f' 127 int32))
    ∷ []

abbrev pub serial_requests : List (String × ℕ)
serial_requests =
    ("TIOCLINUX", 0x541C)
    ∷ ("TIOCGSERIAL", 0x541E)
    ∷ ("TIOCSSERIAL", 0x541F)
    ∷ ("TCSBRKP", 0x5425)
    ∷ ("TIOCTTYGSTRUCT", 0x5426)
    ∷ ("TIOCSERCONFIG", 0x5453)
    ∷ ("TIOCSERGWILD", 0x5454)
    ∷ ("TIOCSERSWILD", 0x5455)
    ∷ ("TIOCGLCKTRMIOS", 0x5456)
    ∷ ("TIOCSLCKTRMIOS", 0x5457)
    ∷ ("TIOCSERGSTRUCT", 0x5458)
    ∷ ("TIOCSERGETLSR", 0x5459)
    ∷ ("TIOCSERGETMULTI", 0x545A)
    ∷ ("TIOCSERSETMULTI", 0x545B)
    ∷ ("TIOCMIWAIT", 0x545C)
    ∷ ("TIOCGICOUNT", 0x545D)
    ∷ []
