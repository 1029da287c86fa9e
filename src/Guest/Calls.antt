-- ===== src/Guest/Calls.antt =====
-- The host operating system as proj/sparc-linux/syscall.c calls it: which functions of the C
-- library it calls, with which values, and what comes back.
use sparcy.Base.{ℕ, List, Option}
use sparcy.Memory.{Memory}

-- The functions of the host's C library, and its raw system calls, that `do_syscall` makes.
pub data HostFn : Type 0 where
  read write open_file close creat link linkat unlink unlinkat chdir time mknod mknodat : HostFn
  chmod lseek getpid stime utime utimes futimesat access faccessat nice sync rename : HostFn
  renameat mkdir mkdirat rmdir dup times setpgid umask chroot dup2 getppid getpgrp : HostFn
  setsid sethostname setrlimit getrlimit getrusage gettimeofday settimeofday select : HostFn
  symlink symlinkat msync mlock munlock munlockall truncate ftruncate fchmod fchmodat : HostFn
  getpriority setpriority statfs fstatfs syslog setitimer getitimer stat lstat fstat : HostFn
  vhangup sysinfo fsync setdomainname getpgid fchdir personality getdents : HostFn
  getdents64 flock readv writev getsid fdatasync sched_getscheduler sched_yield : HostFn
  sched_get_priority_max sched_get_priority_min prctl getcwd sendfile fstatat lchown : HostFn
  getuid getgid geteuid getegid setreuid setregid fchown fchownat setresuid : HostFn
  getresuid setresgid getresgid chown setuid setgid setfsuid setfsgid gettid unshare : HostFn
  tee calloc : HostFn

-- One call: the function, and its arguments as the words that the caller passes. A pointer to a
-- local structure stands as the list of the structure's fields; NULL is 0.
pub record HostCall : Type 0 where
  pub function : HostFn
  pub args : List ℕ

-- What a call leaves behind: the value returned, as a 64-bit word; what it wrote to `errno`, if it
-- did; the memory; and the fields that it filled in of the local structures whose address it got.
pub record Reply : Type 0 where
  pub result : ℕ
  pub error : Option ℕ
  pub memory : Memory
  pub out : List ℕ

-- The host answers each call as it likes, by what has been called before and the memory it finds.
abbrev pub Host : Type 0
Host = List HostCall → Memory → HostCall → Reply
