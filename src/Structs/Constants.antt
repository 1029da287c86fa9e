-- ===== src/Structs/Constants.antt =====
-- Constants of proj/sparc-linux/syscall_defs.h, termbits.h and socket.h, as tables of names and numbers.
pub mod Signals
pub mod Files
pub mod Sockets
pub mod Terminals
