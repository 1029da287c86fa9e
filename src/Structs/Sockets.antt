-- ===== src/Structs/Sockets.antt =====
-- Addresses, messages and filters of sockets, in proj/sparc-linux/syscall_defs.h.
use sparcy.Structs.{CType, end, ◌⦂◌▹◌, int8, int16, int32, array, struct}

abbrev pub target_sockaddr : CType
target_sockaddr = struct ("sa_family" ⦂ int16 ▹ "sa_data" ⦂ array int8 14 ▹ end)

abbrev pub target_sockaddr_ll : CType
target_sockaddr_ll = struct (
    "sll_family"
    ⦂ int16 ▹ "sll_protocol"
    ⦂ int16 ▹ "sll_ifindex"
    ⦂ int32 ▹ "sll_hatype"
    ⦂ int16 ▹ "sll_pkttype"
    ⦂ int8 ▹ "sll_halen"
    ⦂ int8 ▹ "sll_addr"
    ⦂ array int8 8 ▹ end)

abbrev pub target_sock_filter : CType
target_sock_filter = struct ("code" ⦂ int16 ▹ "jt" ⦂ int8 ▹ "jf" ⦂ int8 ▹ "k" ⦂ int32 ▹ end)

abbrev pub target_sock_fprog : CType
target_sock_fprog = struct ("len" ⦂ int16 ▹ "filter" ⦂ int32 ▹ end)

abbrev pub target_in_addr : CType
target_in_addr = struct ("s_addr" ⦂ int32 ▹ end)

abbrev pub target_ip_mreq : CType
target_ip_mreq = struct ("imr_multiaddr" ⦂ target_in_addr ▹ "imr_address" ⦂ target_in_addr ▹ end)

abbrev pub target_ip_mreqn : CType
target_ip_mreqn = struct (
    "imr_multiaddr" ⦂ target_in_addr ▹ "imr_address" ⦂ target_in_addr ▹ "imr_ifindex" ⦂ int32 ▹ end)

abbrev pub target_ip_mreq_source : CType
target_ip_mreq_source =
    struct ("imr_multiaddr" ⦂ int32 ▹ "imr_interface" ⦂ int32 ▹ "imr_sourceaddr" ⦂ int32 ▹ end)

abbrev pub target_msghdr : CType
target_msghdr = struct (
    "msg_name"
    ⦂ int32 ▹ "msg_namelen"
    ⦂ int32 ▹ "msg_iov"
    ⦂ int32 ▹ "msg_iovlen"
    ⦂ int32 ▹ "msg_control"
    ⦂ int32 ▹ "msg_controllen"
    ⦂ int32 ▹ "msg_flags"
    ⦂ int32 ▹ end)

abbrev pub target_cmsghdr : CType
target_cmsghdr = struct ("cmsg_len" ⦂ int32 ▹ "cmsg_level" ⦂ int32 ▹ "cmsg_type" ⦂ int32 ▹ end)

abbrev pub target_mmsghdr : CType
target_mmsghdr = struct ("msg_hdr" ⦂ target_msghdr ▹ "msg_len" ⦂ int32 ▹ end)
