-- ===== src/Nr/Fourth.antt =====
-- The system call numbers 240 to 337 of proj/sparc-linux/syscall_nr.h.
use sparcy.Base.{ℕ}

abbrev pub munlockall : ℕ
munlockall = 240

abbrev pub sched_setparam : ℕ
sched_setparam = 241

abbrev pub sched_getparam : ℕ
sched_getparam = 242

abbrev pub sched_setscheduler : ℕ
sched_setscheduler = 243

abbrev pub sched_getscheduler : ℕ
sched_getscheduler = 244

abbrev pub sched_yield : ℕ
sched_yield = 245

abbrev pub sched_get_priority_max : ℕ
sched_get_priority_max = 246

abbrev pub sched_get_priority_min : ℕ
sched_get_priority_min = 247

abbrev pub sched_rr_get_interval : ℕ
sched_rr_get_interval = 248

abbrev pub nanosleep : ℕ
nanosleep = 249

abbrev pub mremap : ℕ
mremap = 250

abbrev pub sysctl : ℕ
sysctl = 251

abbrev pub getsid : ℕ
getsid = 252

abbrev pub fdatasync : ℕ
fdatasync = 253

abbrev pub nfsservctl : ℕ
nfsservctl = 254

abbrev pub clock_gettime : ℕ
clock_gettime = 257

abbrev pub clock_getres : ℕ
clock_getres = 258

abbrev pub clock_nanosleep : ℕ
clock_nanosleep = 259

abbrev pub sched_getaffinity : ℕ
sched_getaffinity = 260

abbrev pub sched_setaffinity : ℕ
sched_setaffinity = 261

abbrev pub timer_settime : ℕ
timer_settime = 262

abbrev pub timer_gettime : ℕ
timer_gettime = 263

abbrev pub timer_getoverrun : ℕ
timer_getoverrun = 264

abbrev pub timer_delete : ℕ
timer_delete = 265

abbrev pub timer_create : ℕ
timer_create = 266

abbrev pub mq_open : ℕ
mq_open = 273

abbrev pub mq_unlink : ℕ
mq_unlink = 274

abbrev pub mq_timedsend : ℕ
mq_timedsend = 275

abbrev pub mq_timedreceive : ℕ
mq_timedreceive = 276

abbrev pub mq_getsetattr : ℕ
mq_getsetattr = 278

abbrev pub waitid : ℕ
waitid = 279

abbrev pub tee : ℕ
tee = 280

abbrev pub openat : ℕ
openat = 284

abbrev pub mkdirat : ℕ
mkdirat = 285

abbrev pub mknodat : ℕ
mknodat = 286

abbrev pub fchownat : ℕ
fchownat = 287

abbrev pub futimesat : ℕ
futimesat = 288

abbrev pub fstatat64 : ℕ
fstatat64 = 289

abbrev pub unlinkat : ℕ
unlinkat = 290

abbrev pub renameat : ℕ
renameat = 291

abbrev pub linkat : ℕ
linkat = 292

abbrev pub symlinkat : ℕ
symlinkat = 293

abbrev pub readlinkat : ℕ
readlinkat = 294

abbrev pub fchmodat : ℕ
fchmodat = 295

abbrev pub faccessat : ℕ
faccessat = 296

abbrev pub pselect6 : ℕ
pselect6 = 297

abbrev pub ppoll : ℕ
ppoll = 298

abbrev pub unshare : ℕ
unshare = 299

abbrev pub set_robust_list : ℕ
set_robust_list = 300

abbrev pub get_robust_list : ℕ
get_robust_list = 301

abbrev pub epoll_pwait : ℕ
epoll_pwait = 309

abbrev pub utimensat : ℕ
utimensat = 310

abbrev pub eventfd : ℕ
eventfd = 313

abbrev pub fallocate : ℕ
fallocate = 314

abbrev pub timerfd_settime : ℕ
timerfd_settime = 315

abbrev pub timerfd_gettime : ℕ
timerfd_gettime = 316

abbrev pub eventfd2 : ℕ
eventfd2 = 318

abbrev pub epoll_create1 : ℕ
epoll_create1 = 319

abbrev pub dup3 : ℕ
dup3 = 320

abbrev pub pipe2 : ℕ
pipe2 = 321

abbrev pub inotify_init1 : ℕ
inotify_init1 = 322

abbrev pub accept4 : ℕ
accept4 = 323

abbrev pub recvmmsg : ℕ
recvmmsg = 328

abbrev pub prlimit64 : ℕ
prlimit64 = 331

abbrev pub sendmmsg : ℕ
sendmmsg = 336

abbrev pub setns : ℕ
setns = 337
