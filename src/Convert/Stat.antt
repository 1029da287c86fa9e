-- ===== src/Convert/Stat.antt =====
-- File and file system status in proj/sparc-linux/syscall.c. The host leaves the fields of struct
-- stat in the order dev, ino, mode, nlink, uid, gid, rdev, size, blksize, blocks, atime, mtime,
-- ctime, and those of struct statfs in the order in which the source stores them.
pub mod Fields
pub mod ReadBack
use sparcy.Base.{ℕ, ◌+◌, List, get_or}
use sparcy.Memory.{memset}
use sparcy.Guest.{M, ◌>>=◌, ◌>>◌, lock_user, write_memory, put_half, put_long, put_quad}

-- `sizeof` of the target's structures
abbrev pub sizeof_target_stat : ℕ
sizeof_target_stat = 64

abbrev pub sizeof_target_stat64 : ℕ
sizeof_target_stat64 = 104

-- The code at `do_stat`.
unfoldable pub host_to_target_stat : ℕ → List ℕ → M (Unit {0})
unfolding ◌>>=◌ lock_user write_memory put_half put_long
host_to_target_stat target_addr st = do
  p ← lock_user target_addr
  write_memory (λ m. memset m p 0 sizeof_target_stat)
  put_half p (get_or st 0 0)
  put_long (p + 4) (get_or st 1 0)
  put_half (p + 8) (get_or st 2 0)
  put_half (p + 12) (get_or st 4 0)
  put_half (p + 14) (get_or st 5 0)
  put_half (p + 10) (get_or st 3 0)
  put_half (p + 16) (get_or st 6 0)
  put_long (p + 20) (get_or st 7 0)
  put_long (p + 48) (get_or st 8 0)
  put_long (p + 52) (get_or st 9 0)
  put_long (p + 24) (get_or st 10 0)
  put_long (p + 32) (get_or st 11 0)
  put_long (p + 40) (get_or st 12 0)

unfoldable pub host_to_target_stat64 : ℕ → List ℕ → M (Unit {0})
unfolding ◌>>=◌ lock_user write_memory put_half put_long put_quad
host_to_target_stat64 target_addr st = do
  p ← lock_user target_addr
  write_memory (λ m. memset m p 0 sizeof_target_stat64)
  put_half (p + 6) (get_or st 0 0)
  put_quad (p + 8) (get_or st 1 0)
  put_long (p + 16) (get_or st 2 0)
  put_long (p + 20) (get_or st 3 0)
  put_long (p + 24) (get_or st 4 0)
  put_long (p + 28) (get_or st 5 0)
  put_half (p + 38) (get_or st 6 0)
  put_quad (p + 48) (get_or st 7 0)
  put_long (p + 56) (get_or st 8 0)
  put_long (p + 68) (get_or st 9 0)
  put_long (p + 72) (get_or st 10 0)
  put_long (p + 80) (get_or st 11 0)
  put_long (p + 88) (get_or st 12 0)

-- The code at `convert_statfs`: the fields type to ffree, the two words of fsid, namelen, frsize, and
-- the spare words set to 0.
unfoldable pub host_to_target_statfs : ℕ → List ℕ → M (Unit {0})
unfolding ◌>>=◌ lock_user write_memory put_long
host_to_target_statfs target_addr stfs = do
  p ← lock_user target_addr
  put_long p (get_or stfs 0 0)
  put_long (p + 4) (get_or stfs 1 0)
  put_long (p + 8) (get_or stfs 2 0)
  put_long (p + 12) (get_or stfs 3 0)
  put_long (p + 16) (get_or stfs 4 0)
  put_long (p + 20) (get_or stfs 5 0)
  put_long (p + 24) (get_or stfs 6 0)
  put_long (p + 28) (get_or stfs 7 0)
  put_long (p + 32) (get_or stfs 8 0)
  put_long (p + 36) (get_or stfs 9 0)
  put_long (p + 40) (get_or stfs 10 0)
  write_memory (λ m. memset m (p + 44) 0 20)

-- The code at `convert_statfs64`: blocks to ffree take 64 bits each.
unfoldable pub host_to_target_statfs64 : ℕ → List ℕ → M (Unit {0})
unfolding ◌>>=◌ lock_user write_memory put_long put_quad
host_to_target_statfs64 target_addr stfs = do
  p ← lock_user target_addr
  put_long p (get_or stfs 0 0)
  put_long (p + 4) (get_or stfs 1 0)
  put_quad (p + 8) (get_or stfs 2 0)
  put_quad (p + 16) (get_or stfs 3 0)
  put_quad (p + 24) (get_or stfs 4 0)
  put_quad (p + 32) (get_or stfs 5 0)
  put_quad (p + 40) (get_or stfs 6 0)
  put_long (p + 48) (get_or stfs 7 0)
  put_long (p + 52) (get_or stfs 8 0)
  put_long (p + 56) (get_or stfs 9 0)
  put_long (p + 60) (get_or stfs 10 0)
  write_memory (λ m. memset m (p + 64) 0 20)

-- `sysinfo`: uptime, three loads, six memory sizes, the number of processes as a half-word, two more
-- sizes and the unit.
unfoldable pub host_to_target_sysinfo : ℕ → List ℕ → M (Unit {0})
unfolding ◌>>=◌ lock_user put_half put_long
host_to_target_sysinfo target_addr value = do
  p ← lock_user target_addr
  put_long p (get_or value 0 0)
  put_long (p + 4) (get_or value 1 0)
  put_long (p + 8) (get_or value 2 0)
  put_long (p + 12) (get_or value 3 0)
  put_long (p + 16) (get_or value 4 0)
  put_long (p + 20) (get_or value 5 0)
  put_long (p + 24) (get_or value 6 0)
  put_long (p + 28) (get_or value 7 0)
  put_long (p + 32) (get_or value 8 0)
  put_long (p + 36) (get_or value 9 0)
  put_half (p + 40) (get_or value 10 0)
  put_long (p + 44) (get_or value 11 0)
  put_long (p + 48) (get_or value 12 0)
  put_long (p + 52) (get_or value 13 0)
