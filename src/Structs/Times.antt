-- ===== src/Structs/Times.antt =====
-- Times, timers and their events, in proj/sparc-linux/syscall_defs.h.
use sparcy.Structs.{CType, end, ◌⦂◌▹◌, int32, struct}

abbrev pub target_timeval : CType
target_timeval = struct ("tv_sec" ⦂ int32 ▹ "tv_usec" ⦂ int32 ▹ end)

abbrev pub target_timespec : CType
target_timespec = struct ("tv_sec" ⦂ int32 ▹ "tv_nsec" ⦂ int32 ▹ end)

abbrev pub target_timezone : CType
target_timezone = struct ("tz_minuteswest" ⦂ int32 ▹ "tz_dsttime" ⦂ int32 ▹ end)

abbrev pub target_itimerval : CType
target_itimerval = struct ("it_interval" ⦂ target_timeval ▹ "it_value" ⦂ target_timeval ▹ end)

abbrev pub target_itimerspec : CType
target_itimerspec = struct ("it_interval" ⦂ target_timespec ▹ "it_value" ⦂ target_timespec ▹ end)

abbrev pub target_tms : CType
target_tms =
    struct (
      "tms_utime" ⦂ int32 ▹ "tms_stime" ⦂ int32 ▹ "tms_cutime" ⦂ int32 ▹ "tms_cstime" ⦂ int32 ▹ end)

abbrev pub target_utimbuf : CType
target_utimbuf = struct ("actime" ⦂ int32 ▹ "modtime" ⦂ int32 ▹ end)
