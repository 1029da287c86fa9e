-- ===== src/Structs/Terminals.antt =====
-- Terminals, in proj/sparc-linux/syscall_defs.h and termbits.h.
use sparcy.Structs.{CType, end, ◌⦂◌▹◌, int8, int16, int32, array, struct}

abbrev pub target_termio : CType
target_termio = struct (
    "c_iflag"
    ⦂ int16 ▹ "c_oflag"
    ⦂ int16 ▹ "c_cflag"
    ⦂ int16 ▹ "c_lflag"
    ⦂ int16 ▹ "c_line"
    ⦂ int8 ▹ "c_cc"
    ⦂ array int8 8 ▹ end)

abbrev pub target_winsize : CType
target_winsize =
    struct ("ws_row" ⦂ int16 ▹ "ws_col" ⦂ int16 ▹ "ws_xpixel" ⦂ int16 ▹ "ws_ypixel" ⦂ int16 ▹ end)

abbrev pub target_termios : CType
target_termios = struct (
    "c_iflag"
    ⦂ int32 ▹ "c_oflag"
    ⦂ int32 ▹ "c_cflag"
    ⦂ int32 ▹ "c_lflag"
    ⦂ int32 ▹ "c_line"
    ⦂ int8 ▹ "c_cc"
    ⦂ array int8 19 ▹ end)
