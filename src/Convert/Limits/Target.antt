-- ===== src/Convert/Limits/Target.antt =====
-- The target's numbers of the resources, TARGET_RLIMIT_* of proj/sparc-linux/syscall_defs.h.
use sparcy.Base.{ℕ}

abbrev pub cpu : ℕ
cpu = 0

abbrev pub fsize : ℕ
fsize = 1

abbrev pub data_size : ℕ
data_size = 2

abbrev pub stack : ℕ
stack = 3

abbrev pub core : ℕ
core = 4

abbrev pub rss : ℕ
rss = 5

abbrev pub nofile : ℕ
nofile = 6

abbrev pub nproc : ℕ
nproc = 7

abbrev pub memlock : ℕ
memlock = 8

abbrev pub address_space : ℕ
address_space = 9

abbrev pub locks : ℕ
locks = 10

abbrev pub sigpending : ℕ
sigpending = 11

abbrev pub msgqueue : ℕ
msgqueue = 12

abbrev pub nice : ℕ
nice = 13

abbrev pub rtprio : ℕ
rtprio = 14
