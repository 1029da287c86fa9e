-- ===== src/Convert/Uid.antt =====
-- The 16-bit user and group numbers of proj/sparc-linux/syscall.c.
use sparcy.Base.{ℕ, ◌&&◌, not, ltb, ◌==◌, if◌then◌else◌, u16, is_neg32, neg32}

-- `uid > 65535` as ints
unfoldable pub high2lowuid : ℕ → ℕ
high2lowuid uid = if not (is_neg32 uid) && ltb 65535 uid then 65534 else uid

unfoldable pub high2lowgid : ℕ → ℕ
high2lowgid gid = if not (is_neg32 gid) && ltb 65535 gid then 65534 else gid

-- `(int16_t)uid == -1`
unfoldable pub low2highuid : ℕ → ℕ
low2highuid uid = if u16 uid == 0xffff then neg32 1 else uid

unfoldable pub low2highgid : ℕ → ℕ
low2highgid gid = if u16 gid == 0xffff then neg32 1 else gid
