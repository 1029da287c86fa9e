-- ===== src/Structs/Constants/Sockets.antt =====
-- Numbers of socket and ipc calls in proj/sparc-linux/syscall_defs.h, and options of sockets in socket.h.
use Prim.Native.String.{String}
use sparcy.Base.{ℕ, List, [], ◌∷◌, ◌+◌}

abbrev pub socket_calls : List (String × ℕ)
socket_calls =
    ("SOCKOP_socket", 1)
    ∷ ("SOCKOP_bind", 2)
    ∷ ("SOCKOP_connect", 3)
    ∷ ("SOCKOP_listen", 4)
    ∷ ("SOCKOP_accept", 5)
    ∷ ("SOCKOP_getsockname", 6)
    ∷ ("SOCKOP_getpeername", 7)
    ∷ ("SOCKOP_socketpair", 8)
    ∷ ("SOCKOP_send", 9)
    ∷ ("SOCKOP_recv", 10)
    ∷ ("SOCKOP_sendto", 11)
    ∷ ("SOCKOP_recvfrom", 12)
    ∷ ("SOCKOP_shutdown", 13)
    ∷ ("SOCKOP_setsockopt", 14)
    ∷ ("SOCKOP_getsockopt", 15)
    ∷ ("SOCKOP_sendmsg", 16)
    ∷ ("SOCKOP_recvmsg", 17)
    ∷ ("SOCKOP_accept4", 18)
    ∷ []

abbrev pub ipc_calls : List (String × ℕ)
ipc_calls =
    ("IPCOP_semop", 1)
    ∷ ("IPCOP_semget", 2)
    ∷ ("IPCOP_semctl", 3)
    ∷ ("IPCOP_semtimedop", 4)
    ∷ ("IPCOP_msgsnd", 11)
    ∷ ("IPCOP_msgrcv", 12)
    ∷ ("IPCOP_msgget", 13)
    ∷ ("IPCOP_msgctl", 14)
    ∷ ("IPCOP_shmat", 21)
    ∷ ("IPCOP_shmdt", 22)
    ∷ ("IPCOP_shmget", 23)
    ∷ ("IPCOP_shmctl", 24)
    ∷ []

abbrev pub socket_types : List (String × ℕ)
socket_types =
    ("SOCK_STREAM", 1)
    ∷ ("SOCK_DGRAM", 2)
    ∷ ("SOCK_RAW", 3)
    ∷ ("SOCK_RDM", 4)
    ∷ ("SOCK_SEQPACKET", 5)
    ∷ ("SOCK_DCCP", 6)
    ∷ ("SOCK_PACKET", 10)
    ∷ ("SOCK_CLOEXEC", 4194304)
    ∷ ("SOCK_NONBLOCK", 16384)
    ∷ ("SOCK_MAX", 10 + 1)
    ∷ ("SOCK_TYPE_MASK", 0xf)
    ∷ ("SO_PASSSEC", 31)
    ∷ []

abbrev pub socket_options : List (String × ℕ)
socket_options =
    ("SOL_SOCKET", 1)
    ∷ ("SO_DEBUG", 1)
    ∷ ("SO_REUSEADDR", 2)
    ∷ ("SO_TYPE", 3)
    ∷ ("SO_ERROR", 4)
    ∷ ("SO_DONTROUTE", 5)
    ∷ ("SO_BROADCAST", 6)
    ∷ ("SO_SNDBUF", 7)
    ∷ ("SO_RCVBUF", 8)
    ∷ ("SO_SNDBUFFORCE", 32)
    ∷ ("SO_RCVBUFFORCE", 33)
    ∷ ("SO_KEEPALIVE", 9)
    ∷ ("SO_OOBINLINE", 10)
    ∷ ("SO_NO_CHECK", 11)
    ∷ ("SO_PRIORITY", 12)
    ∷ ("SO_LINGER", 13)
    ∷ ("SO_BSDCOMPAT", 14)
    ∷ []

abbrev pub credential_options : List (String × ℕ)
credential_options =
    ("SO_PASSCRED", 16)
    ∷ ("SO_PEERCRED", 17)
    ∷ ("SO_RCVLOWAT", 18)
    ∷ ("SO_SNDLOWAT", 19)
    ∷ ("SO_RCVTIMEO", 20)
    ∷ ("SO_SNDTIMEO", 21)
    ∷ ("SO_SECURITY_AUTHENTICATION", 22)
    ∷ ("SO_SECURITY_ENCRYPTION_TRANSPORT", 23)
    ∷ ("SO_SECURITY_ENCRYPTION_NETWORK", 24)
    ∷ ("SO_BINDTODEVICE", 25)
    ∷ ("SO_ATTACH_FILTER", 26)
    ∷ ("SO_DETACH_FILTER", 27)
    ∷ ("SO_PEERNAME", 28)
    ∷ ("SO_TIMESTAMP", 29)
    ∷ ("SCM_TIMESTAMP", 29)
    ∷ ("SO_ACCEPTCONN", 30)
    ∷ ("SO_PEERSEC", 31)
    ∷ []
