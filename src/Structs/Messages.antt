-- ===== src/Structs/Messages.antt =====
-- The control messages of a socket: `TARGET_CMSG_NXTHDR` and its kind of proj/sparc-linux/syscall_defs.h.
use sparcy.Base.{ℕ, ◌+◌, ◌-◌, ◌*◌, ◌/◌, ◌^◌, ltb, if◌then◌else◌, u64}
use sparcy.Memory.{Memory, ldl_he_p, tswapal}

-- `sizeof (struct target_cmsghdr)`, and the offsets of `msg_control` and `msg_controllen`.
abbrev pub sizeof_cmsghdr : ℕ
sizeof_cmsghdr = 12

abbrev pub msg_control : ℕ
msg_control = 16

abbrev pub msg_controllen : ℕ
msg_controllen = 20

unfoldable pub target_cmsg_data : ℕ → ℕ
target_cmsg_data cmsg = u64 (cmsg + sizeof_cmsghdr)

-- `len` rounded up to an abi_long.
unfoldable pub target_cmsg_align : ℕ → ℕ
target_cmsg_align len = u64 (len + 4 - 1) / 4 * 4

unfoldable pub target_cmsg_space : ℕ → ℕ
unfolding target_cmsg_align
target_cmsg_space len = u64 (target_cmsg_align len + target_cmsg_align sizeof_cmsghdr)

unfoldable pub target_cmsg_len : ℕ → ℕ
unfolding target_cmsg_align
target_cmsg_len len = u64 (target_cmsg_align sizeof_cmsghdr + len)

-- `__target_cmsg_nxthdr`, with host addresses of the two headers, and NULL as 0.
unfoldable pub target_cmsg_nxthdr : Memory → ℕ → ℕ → ℕ
unfolding target_cmsg_align
target_cmsg_nxthdr m mhdr cmsg =
    let ptr = u64 (cmsg + target_cmsg_align (tswapal (ldl_he_p m cmsg))) in
    let past = u64 (ptr + sizeof_cmsghdr + 2 ^ 64 - tswapal (ldl_he_p m (mhdr + msg_control))) in
    if ltb (tswapal (ldl_he_p m (mhdr + msg_controllen))) past then 0 else cmsg
