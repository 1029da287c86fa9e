-- ===== src/Structs/Constants/Terminals.antt =====
-- The modes of terminals in proj/sparc-linux/termbits.h.
use Prim.Native.String.{String}
use sparcy.Base.{ℕ, List, [], ◌∷◌}

abbrev pub control_characters : List (String × ℕ)
control_characters =
    ("VINTR", 0)
    ∷ ("VQUIT", 1)
    ∷ ("VERASE", 2)
    ∷ ("VKILL", 3)
    ∷ ("VEOF", 4)
    ∷ ("VEOL", 5)
    ∷ ("VEOL2", 6)
    ∷ ("VSWTC", 7)
    ∷ ("VSTART", 8)
    ∷ ("VSTOP", 9)
    ∷ ("VSUSP", 10)
    ∷ ("VDSUSP", 11)
    ∷ ("VREPRINT", 12)
    ∷ ("VDISCARD", 13)
    ∷ ("VWERASE", 14)
    ∷ ("VLNEXT", 15)
    ∷ ("VMIN", 4)
    ∷ ("VTIME", 5)
    ∷ []

abbrev pub input_modes : List (String × ℕ)
input_modes =
    ("IGNBRK", 0x00000001)
    ∷ ("BRKINT", 0x00000002)
    ∷ ("IGNPAR", 0x00000004)
    ∷ ("PARMRK", 0x00000008)
    ∷ ("INPCK", 0x00000010)
    ∷ ("ISTRIP", 0x00000020)
    ∷ ("INLCR", 0x00000040)
    ∷ ("IGNCR", 0x00000080)
    ∷ ("ICRNL", 0x00000100)
    ∷ ("IUCLC", 0x00000200)
    ∷ ("IXON", 0x00000400)
    ∷ ("IXANY", 0x00000800)
    ∷ ("IXOFF", 0x00001000)
    ∷ ("IMAXBEL", 0x00002000)
    ∷ ("IUTF8", 0x00004000)
    ∷ []

abbrev pub output_modes : List (String × ℕ)
output_modes =
    ("OPOST", 0x00000001)
    ∷ ("OLCUC", 0x00000002)
    ∷ ("ONLCR", 0x00000004)
    ∷ ("OCRNL", 0x00000008)
    ∷ ("ONOCR", 0x00000010)
    ∷ ("ONLRET", 0x00000020)
    ∷ ("OFILL", 0x00000040)
    ∷ ("OFDEL", 0x00000080)
    ∷ ("NLDLY", 0x00000100)
    ∷ ("NL0", 0x00000000)
    ∷ ("NL1", 0x00000100)
    ∷ ("CRDLY", 0x00000600)
    ∷ ("CR0", 0x00000000)
    ∷ ("CR1", 0x00000200)
    ∷ ("CR2", 0x00000400)
    ∷ ("CR3", 0x00000600)
    ∷ ("TABDLY", 0x00001800)
    ∷ ("TAB0", 0x00000000)
    ∷ ("TAB1", 0x00000800)
    ∷ ("TAB2", 0x00001000)
    ∷ ("TAB3", 0x00001800)
    ∷ ("XTABS", 0x00001800)
    ∷ ("BSDLY", 0x00002000)
    ∷ ("BS0", 0x00000000)
    ∷ ("BS1", 0x00002000)
    ∷ ("VTDLY", 0x00004000)
    ∷ ("VT0", 0x00000000)
    ∷ ("VT1", 0x00004000)
    ∷ ("FFDLY", 0x00008000)
    ∷ ("FF0", 0x00000000)
    ∷ ("FF1", 0x00008000)
    ∷ ("PAGEOUT", 0x00010000)
    ∷ ("WRAP", 0x00020000)
    ∷ []

abbrev pub control_modes : List (String × ℕ)
control_modes =
    ("CBAUD", 0x0000100f)
    ∷ ("B0", 0x00000000)
    ∷ ("B50", 0x00000001)
    ∷ ("B75", 0x00000002)
    ∷ ("B110", 0x00000003)
    ∷ ("B134", 0x00000004)
    ∷ ("B150", 0x00000005)
    ∷ ("B200", 0x00000006)
    ∷ ("B300", 0x00000007)
    ∷ ("B600", 0x00000008)
    ∷ ("B1200", 0x00000009)
    ∷ ("B1800", 0x0000000a)
    ∷ ("B2400", 0x0000000b)
    ∷ ("B4800", 0x0000000c)
    ∷ ("B9600", 0x0000000d)
    ∷ ("B19200", 0x0000000e)
    ∷ ("B38400", 0x0000000f)
    ∷ ("CSIZE", 0x00000030)
    ∷ ("CS5", 0x00000000)
    ∷ ("CS6", 0x00000010)
    ∷ ("CS7", 0x00000020)
    ∷ ("CS8", 0x00000030)
    ∷ ("CSTOPB", 0x00000040)
    ∷ ("CREAD", 0x00000080)
    ∷ ("PARENB", 0x00000100)
    ∷ ("PARODD", 0x00000200)
    ∷ ("HUPCL", 0x00000400)
    ∷ ("CLOCAL", 0x00000800)
    ∷ ("CBAUDEX", 0x00001000)
    ∷ ("B57600", 0x00001001)
    ∷ ("B115200", 0x00001002)
    ∷ ("B230400", 0x00001003)
    ∷ ("B460800", 0x00001004)
    ∷ ("B76800", 0x00001005)
    ∷ ("B153600", 0x00001006)
    ∷ ("B307200", 0x00001007)
    ∷ ("B614400", 0x00001008)
    ∷ ("B921600", 0x00001009)
    ∷ ("B500000", 0x0000100a)
    ∷ ("B576000", 0x0000100b)
    ∷ ("B1000000", 0x0000100c)
    ∷ ("B1152000", 0x0000100d)
    ∷ ("B1500000", 0x0000100e)
    ∷ ("B2000000", 0x0000100f)
    ∷ ("CIBAUD", 0x100f0000)
    ∷ ("CMSPAR", 0x40000000)
    ∷ ("CRTSCTS", 0x80000000)
    ∷ []

abbrev pub local_modes : List (String × ℕ)
local_modes =
    ("ISIG", 0x00000001)
    ∷ ("ICANON", 0x00000002)
    ∷ ("XCASE", 0x00000004)
    ∷ ("ECHO", 0x00000008)
    ∷ ("ECHOE", 0x00000010)
    ∷ ("ECHOK", 0x00000020)
    ∷ ("ECHONL", 0x00000040)
    ∷ ("NOFLSH", 0x00000080)
    ∷ ("TOSTOP", 0x00000100)
    ∷ ("ECHOCTL", 0x00000200)
    ∷ ("ECHOPRT", 0x00000400)
    ∷ ("ECHOKE", 0x00000800)
    ∷ ("DEFECHO", 0x00001000)
    ∷ ("FLUSHO", 0x00002000)
    ∷ ("PENDIN", 0x00004000)
    ∷ ("IEXTEN", 0x00008000)
    ∷ []
