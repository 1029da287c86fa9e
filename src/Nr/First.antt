-- ===== src/Nr/First.antt =====
-- The system call numbers 1 to 72 of proj/sparc-linux/syscall_nr.h.
use sparcy.Base.{ℕ}

abbrev pub exit : ℕ
exit = 1

abbrev pub fork : ℕ
fork = 2

abbrev pub read : ℕ
read = 3

abbrev pub write : ℕ
write = 4

abbrev pub open_file : ℕ
open_file = 5

abbrev pub close : ℕ
close = 6

abbrev pub wait4 : ℕ
wait4 = 7

abbrev pub creat : ℕ
creat = 8

abbrev pub link : ℕ
link = 9

abbrev pub unlink : ℕ
unlink = 10

abbrev pub chdir : ℕ
chdir = 12

abbrev pub chown : ℕ
chown = 13

abbrev pub mknod : ℕ
mknod = 14

abbrev pub chmod : ℕ
chmod = 15

abbrev pub lchown : ℕ
lchown = 16

abbrev pub brk : ℕ
brk = 17

abbrev pub lseek : ℕ
lseek = 19

abbrev pub getpid : ℕ
getpid = 20

abbrev pub capget : ℕ
capget = 21

abbrev pub capset : ℕ
capset = 22

abbrev pub setuid : ℕ
setuid = 23

abbrev pub getuid : ℕ
getuid = 24

abbrev pub ptrace : ℕ
ptrace = 26

abbrev pub alarm : ℕ
alarm = 27

abbrev pub sigaltstack : ℕ
sigaltstack = 28

abbrev pub pause : ℕ
pause = 29

abbrev pub utime : ℕ
utime = 30

abbrev pub lchown32 : ℕ
lchown32 = 31

abbrev pub fchown32 : ℕ
fchown32 = 32

abbrev pub access : ℕ
access = 33

abbrev pub nice : ℕ
nice = 34

abbrev pub chown32 : ℕ
chown32 = 35

abbrev pub sync : ℕ
sync = 36

abbrev pub kill : ℕ
kill = 37

abbrev pub stat : ℕ
stat = 38

abbrev pub sendfile : ℕ
sendfile = 39

abbrev pub lstat : ℕ
lstat = 40

abbrev pub dup : ℕ
dup = 41

abbrev pub pipe : ℕ
pipe = 42

abbrev pub times : ℕ
times = 43

abbrev pub getuid32 : ℕ
getuid32 = 44

abbrev pub umount2 : ℕ
umount2 = 45

abbrev pub setgid : ℕ
setgid = 46

abbrev pub getgid : ℕ
getgid = 47

abbrev pub signal : ℕ
signal = 48

abbrev pub geteuid : ℕ
geteuid = 49

abbrev pub getegid : ℕ
getegid = 50

abbrev pub acct : ℕ
acct = 51

abbrev pub getgid32 : ℕ
getgid32 = 53

abbrev pub ioctl : ℕ
ioctl = 54

abbrev pub reboot : ℕ
reboot = 55

abbrev pub mmap2 : ℕ
mmap2 = 56

abbrev pub symlink : ℕ
symlink = 57

abbrev pub readlink : ℕ
readlink = 58

abbrev pub execve : ℕ
execve = 59

abbrev pub umask : ℕ
umask = 60

abbrev pub chroot : ℕ
chroot = 61

abbrev pub fstat : ℕ
fstat = 62

abbrev pub fstat64 : ℕ
fstat64 = 63

abbrev pub getpagesize : ℕ
getpagesize = 64

abbrev pub msync : ℕ
msync = 65

abbrev pub vfork : ℕ
vfork = 66

abbrev pub pread64 : ℕ
pread64 = 67

abbrev pub pwrite64 : ℕ
pwrite64 = 68

abbrev pub geteuid32 : ℕ
geteuid32 = 69

abbrev pub getegid32 : ℕ
getegid32 = 70

abbrev pub mmap : ℕ
mmap = 71

abbrev pub setreuid32 : ℕ
setreuid32 = 72
