-- ===== src/Nr/Third.antt =====
-- The system call numbers 142 to 239 of proj/sparc-linux/syscall_nr.h.
use sparcy.Base.{ℕ}

abbrev pub futex : ℕ
futex = 142

abbrev pub gettid : ℕ
gettid = 143

abbrev pub getrlimit : ℕ
getrlimit = 144

abbrev pub setrlimit : ℕ
setrlimit = 145

abbrev pub pivot_root : ℕ
pivot_root = 146

abbrev pub prctl : ℕ
prctl = 147

abbrev pub getsockname : ℕ
getsockname = 150

abbrev pub poll : ℕ
poll = 153

abbrev pub getdents64 : ℕ
getdents64 = 154

abbrev pub fcntl64 : ℕ
fcntl64 = 155

abbrev pub statfs : ℕ
statfs = 157

abbrev pub fstatfs : ℕ
fstatfs = 158

abbrev pub umount : ℕ
umount = 159

abbrev pub getdomainname : ℕ
getdomainname = 162

abbrev pub setdomainname : ℕ
setdomainname = 163

abbrev pub quotactl : ℕ
quotactl = 165

abbrev pub set_tid_address : ℕ
set_tid_address = 166

abbrev pub mount : ℕ
mount = 167

abbrev pub ustat : ℕ
ustat = 168

abbrev pub getdents : ℕ
getdents = 174

abbrev pub setsid : ℕ
setsid = 175

abbrev pub fchdir : ℕ
fchdir = 176

abbrev pub sigpending : ℕ
sigpending = 183

abbrev pub query_module : ℕ
query_module = 184

abbrev pub setpgid : ℕ
setpgid = 185

abbrev pub tkill : ℕ
tkill = 187

abbrev pub exit_group : ℕ
exit_group = 188

abbrev pub uname : ℕ
uname = 189

abbrev pub init_module : ℕ
init_module = 190

abbrev pub personality : ℕ
personality = 191

abbrev pub getppid : ℕ
getppid = 197

abbrev pub sigaction : ℕ
sigaction = 198

abbrev pub sgetmask : ℕ
sgetmask = 199

abbrev pub ssetmask : ℕ
ssetmask = 200

abbrev pub sigsuspend : ℕ
sigsuspend = 201

abbrev pub oldlstat : ℕ
oldlstat = 202

abbrev pub uselib : ℕ
uselib = 203

abbrev pub readdir : ℕ
readdir = 204

abbrev pub readahead : ℕ
readahead = 205

abbrev pub socketcall : ℕ
socketcall = 206

abbrev pub syslog : ℕ
syslog = 207

abbrev pub tgkill : ℕ
tgkill = 211

abbrev pub waitpid : ℕ
waitpid = 212

abbrev pub swapoff : ℕ
swapoff = 213

abbrev pub sysinfo : ℕ
sysinfo = 214

abbrev pub ipc : ℕ
ipc = 215

abbrev pub sigreturn : ℕ
sigreturn = 216

abbrev pub clone : ℕ
clone = 217

abbrev pub adjtimex : ℕ
adjtimex = 219

abbrev pub sigprocmask : ℕ
sigprocmask = 220

abbrev pub create_module : ℕ
create_module = 221

abbrev pub delete_module : ℕ
delete_module = 222

abbrev pub get_kernel_syms : ℕ
get_kernel_syms = 223

abbrev pub getpgid : ℕ
getpgid = 224

abbrev pub bdflush : ℕ
bdflush = 225

abbrev pub sysfs : ℕ
sysfs = 226

abbrev pub afs_syscall : ℕ
afs_syscall = 227

abbrev pub setfsuid : ℕ
setfsuid = 228

abbrev pub setfsgid : ℕ
setfsgid = 229

abbrev pub newselect : ℕ
newselect = 230

abbrev pub time : ℕ
time = 231

abbrev pub stime : ℕ
stime = 233

abbrev pub statfs64 : ℕ
statfs64 = 234

abbrev pub fstatfs64 : ℕ
fstatfs64 = 235

abbrev pub llseek : ℕ
llseek = 236

abbrev pub mlock : ℕ
mlock = 237

abbrev pub munlock : ℕ
munlock = 238

abbrev pub mlockall : ℕ
mlockall = 239
