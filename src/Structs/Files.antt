-- ===== src/Structs/Files.antt =====
-- Files, file systems, directory entries and locks, in proj/sparc-linux/syscall_defs.h.
use sparcy.Structs.{CType, end, ◌⦂◌▹◌, int8, int16, int32, int64, array, struct, packed}

abbrev pub kernel_fsid_t : CType
kernel_fsid_t = struct ("val" ⦂ array int32 2 ▹ end)

abbrev pub kernel_statfs : CType
kernel_statfs = struct (
    "f_type"
    ⦂ int32 ▹ "f_bsize"
    ⦂ int32 ▹ "f_blocks"
    ⦂ int32 ▹ "f_bfree"
    ⦂ int32 ▹ "f_bavail"
    ⦂ int32 ▹ "f_files"
    ⦂ int32 ▹ "f_ffree"
    ⦂ int32 ▹ "f_fsid"
    ⦂ kernel_fsid_t ▹ "f_namelen"
    ⦂ int32 ▹ "f_spare"
    ⦂ array int32 6 ▹ end)

abbrev pub target_dirent : CType
target_dirent =
    struct ("d_ino" ⦂ int32 ▹ "d_off" ⦂ int32 ▹ "d_reclen" ⦂ int16 ▹ "d_name" ⦂ array int8 0 ▹ end)

abbrev pub target_dirent64 : CType
target_dirent64 = struct (
    "d_ino"
    ⦂ int64 ▹ "d_off"
    ⦂ int64 ▹ "d_reclen"
    ⦂ int16 ▹ "d_type"
    ⦂ int8 ▹ "d_name"
    ⦂ array int8 256 ▹ end)

abbrev pub target_stat : CType
target_stat = struct (
    "st_dev"
    ⦂ int16 ▹ "st_ino"
    ⦂ int32 ▹ "st_mode"
    ⦂ int16 ▹ "st_nlink"
    ⦂ int16 ▹ "st_uid"
    ⦂ int16 ▹ "st_gid"
    ⦂ int16 ▹ "st_rdev"
    ⦂ int16 ▹ "st_size"
    ⦂ int32 ▹ "target_st_atime"
    ⦂ int32 ▹ "__unused1"
    ⦂ int32 ▹ "target_st_mtime"
    ⦂ int32 ▹ "__unused2"
    ⦂ int32 ▹ "target_st_ctime"
    ⦂ int32 ▹ "__unused3"
    ⦂ int32 ▹ "st_blksize"
    ⦂ int32 ▹ "st_blocks"
    ⦂ int32 ▹ "__unused4"
    ⦂ array int32 2 ▹ end)

abbrev pub target_stat64 : CType
target_stat64 = struct (
    "__pad0"
    ⦂ array int8 6 ▹ "st_dev"
    ⦂ int16 ▹ "st_ino"
    ⦂ int64 ▹ "st_mode"
    ⦂ int32 ▹ "st_nlink"
    ⦂ int32 ▹ "st_uid"
    ⦂ int32 ▹ "st_gid"
    ⦂ int32 ▹ "__pad2"
    ⦂ array int8 6 ▹ "st_rdev"
    ⦂ int16 ▹ "__pad3"
    ⦂ array int8 8 ▹ "st_size"
    ⦂ int64 ▹ "st_blksize"
    ⦂ int32 ▹ "__pad4"
    ⦂ array int8 8 ▹ "st_blocks"
    ⦂ int32 ▹ "target_st_atime"
    ⦂ int32 ▹ "__unused1"
    ⦂ int32 ▹ "target_st_mtime"
    ⦂ int32 ▹ "__unused2"
    ⦂ int32 ▹ "target_st_ctime"
    ⦂ int32 ▹ "__unused3"
    ⦂ int32 ▹ "__unused4"
    ⦂ int32 ▹ "__unused5"
    ⦂ int32 ▹ end)

abbrev pub target_fsid_t : CType
target_fsid_t = struct ("val" ⦂ array int32 2 ▹ end)

abbrev pub target_statfs : CType
target_statfs = struct (
    "f_type"
    ⦂ int32 ▹ "f_bsize"
    ⦂ int32 ▹ "f_blocks"
    ⦂ int32 ▹ "f_bfree"
    ⦂ int32 ▹ "f_bavail"
    ⦂ int32 ▹ "f_files"
    ⦂ int32 ▹ "f_ffree"
    ⦂ int32 ▹ "f_fsid"
    ⦂ target_fsid_t ▹ "f_namelen"
    ⦂ int32 ▹ "f_frsize"
    ⦂ int32 ▹ "f_spare"
    ⦂ array int32 5 ▹ end)

abbrev pub target_statfs64 : CType
target_statfs64 = struct (
    "f_type"
    ⦂ int32 ▹ "f_bsize"
    ⦂ int32 ▹ "f_blocks"
    ⦂ int64 ▹ "f_bfree"
    ⦂ int64 ▹ "f_bavail"
    ⦂ int64 ▹ "f_files"
    ⦂ int64 ▹ "f_ffree"
    ⦂ int64 ▹ "f_fsid"
    ⦂ target_fsid_t ▹ "f_namelen"
    ⦂ int32 ▹ "f_frsize"
    ⦂ int32 ▹ "f_spare"
    ⦂ array int32 5 ▹ end)

abbrev pub target_flock : CType
target_flock = struct (
    "l_type"
    ⦂ int16 ▹ "l_whence"
    ⦂ int16 ▹ "l_start"
    ⦂ int32 ▹ "l_len"
    ⦂ int32 ▹ "l_pid"
    ⦂ int32 ▹ end)

abbrev pub target_flock64 : CType
target_flock64 = packed (
    "l_type"
    ⦂ int16 ▹ "l_whence"
    ⦂ int16 ▹ "__pad"
    ⦂ int32 ▹ "l_start"
    ⦂ int64 ▹ "l_len"
    ⦂ int64 ▹ "l_pid"
    ⦂ int32 ▹ end)

abbrev pub target_f_owner_ex : CType
target_f_owner_ex = struct ("type" ⦂ int32 ▹ "pid" ⦂ int32 ▹ end)

abbrev pub linux_dirent : CType
linux_dirent =
    struct
      ("d_ino" ⦂ int64 ▹ "d_off" ⦂ int64 ▹ "d_reclen" ⦂ int16 ▹ "d_name" ⦂ array int8 256 ▹ end)

abbrev pub linux_dirent64 : CType
linux_dirent64 = struct (
    "d_ino"
    ⦂ int64 ▹ "d_off"
    ⦂ int64 ▹ "d_reclen"
    ⦂ int16 ▹ "d_type"
    ⦂ int8 ▹ "d_name"
    ⦂ array int8 256 ▹ end)
