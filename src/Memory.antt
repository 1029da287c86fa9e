-- ===== src/Memory.antt =====
-- Byte-addressed host memory, and the accessors of proj/sparc-linux/bswap.h and cpu-all.h by which
-- the emulation reads and writes the big-endian guest on a little-endian host.
use sparcy.Base.{ℕ, zero, suc, ◌+◌, ◌*◌, ◌/◌, ◌%◌, u8, u16, u32, u64, ◌==◌, if◌then◌else◌}
pub mod Accessors
pub mod Ranges
pub mod Loads
pub mod Orders

-- The byte at each address.
abbrev pub Memory : Type 0
Memory = ℕ → ℕ

-- `*(uint8_t *)ptr = v` and `*(uint8_t *)ptr`
unfoldable pub stb_p : Memory → ℕ → ℕ → Memory
stb_p m ptr v q = if ptr == q then u8 v else m q

unfoldable pub ldub_p : Memory → ℕ → ℕ
ldub_p m ptr = u8 (m ptr)

-- `bswap_16`, `bswap_32` and `bswap_64` of byteswap.h
unfoldable pub bswap16 : ℕ → ℕ
bswap16 x = x % 256 * 256 + x / 256 % 256

unfoldable pub bswap32 : ℕ → ℕ
unfolding bswap16
bswap32 x = bswap16 (x % 65536) * 65536 + bswap16 (x / 65536 % 65536)

unfoldable pub bswap64 : ℕ → ℕ
unfolding bswap32
bswap64 x = bswap32 (x % 4294967296) * 4294967296 + bswap32 (x / 4294967296 % 4294967296)

-- The target is big-endian and the host is not, so BSWAP_NEEDED is set.
unfoldable pub tswap16 : ℕ → ℕ
tswap16 = bswap16

unfoldable pub tswap32 : ℕ → ℕ
tswap32 = bswap32

unfoldable pub tswap64 : ℕ → ℕ
tswap64 = bswap64

-- `tswapal`, at the 32-bit target ABI
unfoldable pub tswapal : ℕ → ℕ
tswapal = tswap32

-- Host-endian accesses: the host stores the low byte first.
unfoldable pub stw_he_p : Memory → ℕ → ℕ → Memory
unfolding stb_p
stw_he_p m ptr v = stb_p (stb_p m ptr v) (ptr + 1) (v / 256)

unfoldable pub stl_he_p : Memory → ℕ → ℕ → Memory
unfolding stw_he_p
stl_he_p m ptr v = stw_he_p (stw_he_p m ptr v) (ptr + 2) (v / 65536)

unfoldable pub stq_he_p : Memory → ℕ → ℕ → Memory
unfolding stl_he_p
stq_he_p m ptr v = stl_he_p (stl_he_p m ptr v) (ptr + 4) (v / 4294967296)

unfoldable pub lduw_he_p : Memory → ℕ → ℕ
unfolding ldub_p
lduw_he_p m ptr = ldub_p m ptr + ldub_p m (ptr + 1) * 256

unfoldable pub ldl_he_p : Memory → ℕ → ℕ
unfolding lduw_he_p
ldl_he_p m ptr = lduw_he_p m ptr + lduw_he_p m (ptr + 2) * 65536

unfoldable pub ldq_he_p : Memory → ℕ → ℕ
unfolding ldl_he_p
ldq_he_p m ptr = ldl_he_p m ptr + ldl_he_p m (ptr + 4) * 4294967296

-- Big-endian accesses.
unfoldable pub stw_be_p : Memory → ℕ → ℕ → Memory
stw_be_p m ptr v = stw_he_p m ptr (bswap16 v)

unfoldable pub stl_be_p : Memory → ℕ → ℕ → Memory
stl_be_p m ptr v = stl_he_p m ptr (bswap32 v)

unfoldable pub stq_be_p : Memory → ℕ → ℕ → Memory
stq_be_p m ptr v = stq_he_p m ptr (bswap64 v)

unfoldable pub lduw_be_p : Memory → ℕ → ℕ
lduw_be_p m ptr = bswap16 (lduw_he_p m ptr)

unfoldable pub ldl_be_p : Memory → ℕ → ℕ
ldl_be_p m ptr = bswap32 (ldl_he_p m ptr)

unfoldable pub ldq_be_p : Memory → ℕ → ℕ
ldq_be_p m ptr = bswap64 (ldq_he_p m ptr)

-- `memset(ptr, c, n)`, first byte first
unfoldable pub memset : Memory → ℕ → ℕ → ℕ → Memory
unfolding stb_p
memset m ptr c zero = m
memset m ptr c (suc n) = memset (stb_p m ptr c) (ptr + 1) c n

-- `memcpy(to, from, n)`, first byte first
unfoldable pub memcpy : Memory → ℕ → ℕ → ℕ → Memory
unfolding stb_p
memcpy m to from zero = m
memcpy m to from (suc n) = memcpy (stb_p m to (m from)) (to + 1) (from + 1) n
