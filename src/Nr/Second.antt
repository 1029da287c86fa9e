-- ===== src/Nr/Second.antt =====
-- The system call numbers 73 to 141 of proj/sparc-linux/syscall_nr.h.
use sparcy.Base.{ℕ}

abbrev pub munmap : ℕ
munmap = 73

abbrev pub mprotect : ℕ
mprotect = 74

abbrev pub madvise : ℕ
madvise = 75

abbrev pub vhangup : ℕ
vhangup = 76

abbrev pub truncate64 : ℕ
truncate64 = 77

abbrev pub mincore : ℕ
mincore = 78

abbrev pub getgroups : ℕ
getgroups = 79

abbrev pub setgroups : ℕ
setgroups = 80

abbrev pub getpgrp : ℕ
getpgrp = 81

abbrev pub setgroups32 : ℕ
setgroups32 = 82

abbrev pub setitimer : ℕ
setitimer = 83

abbrev pub ftruncate64 : ℕ
ftruncate64 = 84

abbrev pub swapon : ℕ
swapon = 85

abbrev pub getitimer : ℕ
getitimer = 86

abbrev pub setuid32 : ℕ
setuid32 = 87

abbrev pub sethostname : ℕ
sethostname = 88

abbrev pub setgid32 : ℕ
setgid32 = 89

abbrev pub dup2 : ℕ
dup2 = 90

abbrev pub setfsuid32 : ℕ
setfsuid32 = 91

abbrev pub fcntl : ℕ
fcntl = 92

abbrev pub select : ℕ
select = 93

abbrev pub setfsgid32 : ℕ
setfsgid32 = 94

abbrev pub fsync : ℕ
fsync = 95

abbrev pub setpriority : ℕ
setpriority = 96

abbrev pub socket : ℕ
socket = 97

abbrev pub connect : ℕ
connect = 98

abbrev pub accept : ℕ
accept = 99

abbrev pub getpriority : ℕ
getpriority = 100

abbrev pub rt_sigreturn : ℕ
rt_sigreturn = 101

abbrev pub rt_sigaction : ℕ
rt_sigaction = 102

abbrev pub rt_sigprocmask : ℕ
rt_sigprocmask = 103

abbrev pub rt_sigpending : ℕ
rt_sigpending = 104

abbrev pub rt_sigtimedwait : ℕ
rt_sigtimedwait = 105

abbrev pub rt_sigqueueinfo : ℕ
rt_sigqueueinfo = 106

abbrev pub rt_sigsuspend : ℕ
rt_sigsuspend = 107

abbrev pub setresuid32 : ℕ
setresuid32 = 108

abbrev pub getresuid32 : ℕ
getresuid32 = 109

abbrev pub setresgid32 : ℕ
setresgid32 = 110

abbrev pub getresgid32 : ℕ
getresgid32 = 111

abbrev pub setregid32 : ℕ
setregid32 = 112

abbrev pub recvmsg : ℕ
recvmsg = 113

abbrev pub sendmsg : ℕ
sendmsg = 114

abbrev pub getgroups32 : ℕ
getgroups32 = 115

abbrev pub gettimeofday : ℕ
gettimeofday = 116

abbrev pub getrusage : ℕ
getrusage = 117

abbrev pub getsockopt : ℕ
getsockopt = 118

abbrev pub getcwd : ℕ
getcwd = 119

abbrev pub readv : ℕ
readv = 120

abbrev pub writev : ℕ
writev = 121

abbrev pub settimeofday : ℕ
settimeofday = 122

abbrev pub fchown : ℕ
fchown = 123

abbrev pub fchmod : ℕ
fchmod = 124

abbrev pub recvfrom : ℕ
recvfrom = 125

abbrev pub setreuid : ℕ
setreuid = 126

abbrev pub setregid : ℕ
setregid = 127

abbrev pub rename : ℕ
rename = 128

abbrev pub truncate : ℕ
truncate = 129

abbrev pub ftruncate : ℕ
ftruncate = 130

abbrev pub flock : ℕ
flock = 131

abbrev pub lstat64 : ℕ
lstat64 = 132

abbrev pub sendto : ℕ
sendto = 133

abbrev pub shutdown : ℕ
shutdown = 134

abbrev pub socketpair : ℕ
socketpair = 135

abbrev pub mkdir : ℕ
mkdir = 136

abbrev pub rmdir : ℕ
rmdir = 137

abbrev pub utimes : ℕ
utimes = 138

abbrev pub stat64 : ℕ
stat64 = 139

abbrev pub getpeername : ℕ
getpeername = 141
