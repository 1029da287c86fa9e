-- ===== src/Structs/Calls.antt =====
-- Arguments and results of calls: vectors, limits, resources, polling, queues and credentials, in proj/sparc-linux/syscall_defs.h.
use sparcy.Structs.Times.{target_timeval}
use sparcy.Structs.{CType, end, ◌⦂◌▹◌, int8, int16, int32, int64, array, struct, union, packed}

abbrev pub target_sel_arg_struct : CType
target_sel_arg_struct =
    struct ("n" ⦂ int32 ▹ "inp" ⦂ int32 ▹ "outp" ⦂ int32 ▹ "exp" ⦂ int32 ▹ "tvp" ⦂ int32 ▹ end)

abbrev pub target_iovec : CType
target_iovec = struct ("iov_base" ⦂ int32 ▹ "iov_len" ⦂ int32 ▹ end)

abbrev pub target_rusage : CType
target_rusage = struct (
    "ru_utime"
    ⦂ target_timeval ▹ "ru_stime"
    ⦂ target_timeval ▹ "ru_maxrss"
    ⦂ int32 ▹ "ru_ixrss"
    ⦂ int32 ▹ "ru_idrss"
    ⦂ int32 ▹ "ru_isrss"
    ⦂ int32 ▹ "ru_minflt"
    ⦂ int32 ▹ "ru_majflt"
    ⦂ int32 ▹ "ru_nswap"
    ⦂ int32 ▹ "ru_inblock"
    ⦂ int32 ▹ "ru_oublock"
    ⦂ int32 ▹ "ru_msgsnd"
    ⦂ int32 ▹ "ru_msgrcv"
    ⦂ int32 ▹ "ru_nsignals"
    ⦂ int32 ▹ "ru_nvcsw"
    ⦂ int32 ▹ "ru_nivcsw"
    ⦂ int32 ▹ end)

abbrev pub target_rlimit : CType
target_rlimit = struct ("rlim_cur" ⦂ int32 ▹ "rlim_max" ⦂ int32 ▹ end)

abbrev pub target_pollfd : CType
target_pollfd = struct ("fd" ⦂ int32 ▹ "events" ⦂ int16 ▹ "revents" ⦂ int16 ▹ end)

abbrev pub target_mq_attr : CType
target_mq_attr =
    struct
      ("mq_flags" ⦂ int32 ▹ "mq_maxmsg" ⦂ int32 ▹ "mq_msgsize" ⦂ int32 ▹ "mq_curmsgs" ⦂ int32 ▹ end)

abbrev pub target_rlimit64 : CType
target_rlimit64 = struct ("rlim_cur" ⦂ int64 ▹ "rlim_max" ⦂ int64 ▹ end)

abbrev pub target_ucred : CType
target_ucred = struct ("pid" ⦂ int32 ▹ "uid" ⦂ int32 ▹ "gid" ⦂ int32 ▹ end)

abbrev pub target_user_cap_header : CType
target_user_cap_header = struct ("version" ⦂ int32 ▹ "pid" ⦂ int32 ▹ end)

abbrev pub target_user_cap_data : CType
target_user_cap_data =
    struct ("effective" ⦂ int32 ▹ "permitted" ⦂ int32 ▹ "inheritable" ⦂ int32 ▹ end)

abbrev pub target_sysinfo : CType
target_sysinfo = struct (
    "uptime"
    ⦂ int32 ▹ "loads"
    ⦂ array int32 3 ▹ "totalram"
    ⦂ int32 ▹ "freeram"
    ⦂ int32 ▹ "sharedram"
    ⦂ int32 ▹ "bufferram"
    ⦂ int32 ▹ "totalswap"
    ⦂ int32 ▹ "freeswap"
    ⦂ int32 ▹ "procs"
    ⦂ int16 ▹ "pad"
    ⦂ int16 ▹ "totalhigh"
    ⦂ int32 ▹ "freehigh"
    ⦂ int32 ▹ "mem_unit"
    ⦂ int32 ▹ "_f"
    ⦂ array int8 8 ▹ end)

abbrev pub target_epoll_data_t : CType
target_epoll_data_t = union ("ptr" ⦂ int32 ▹ "fd" ⦂ int32 ▹ "u32" ⦂ int32 ▹ "u64" ⦂ int64 ▹ end)

abbrev pub target_epoll_event : CType
target_epoll_event = packed ("events" ⦂ int32 ▹ "data" ⦂ target_epoll_data_t ▹ end)
