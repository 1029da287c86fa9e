-- ===== src/Memory/Orders.antt =====
-- The rest of proj/sparc-linux/bswap.h on a little-endian host: the little-endian accessors, the signed
-- ones, and the conversions between the host's order and a given one.
use sparcy.Base.{ℕ, ◌+◌, ◌-◌, ◌*◌, ◌/◌, ◌^◌, ltb, if◌then◌else◌, u16, u32}
use sparcy.Memory.{
  Memory, bswap16, bswap32, bswap64, ldub_p, lduw_he_p, ldl_he_p, ldq_he_p, stw_he_p, stl_he_p,
  stq_he_p,
}

-- An int8_t or int16_t as an int.
unfoldable pub sext8 : ℕ → ℕ
sext8 n = if ltb n (2 ^ 7) then n else n + (2 ^ 32 - 2 ^ 8)

unfoldable pub sext16 : ℕ → ℕ
sext16 n = if ltb n (2 ^ 15) then n else n + (2 ^ 32 - 2 ^ 16)

unfoldable pub ldsb_p : Memory → ℕ → ℕ
unfolding sext8 ldub_p
ldsb_p m ptr = sext8 (ldub_p m ptr)

unfoldable pub ldsw_he_p : Memory → ℕ → ℕ
unfolding sext16 lduw_he_p
ldsw_he_p m ptr = sext16 (lduw_he_p m ptr)

unfoldable pub lduw_le_p : Memory → ℕ → ℕ
unfolding lduw_he_p
lduw_le_p m ptr = lduw_he_p m ptr

unfoldable pub ldsw_le_p : Memory → ℕ → ℕ
unfolding sext16 lduw_he_p
ldsw_le_p m ptr = sext16 (lduw_he_p m ptr)

unfoldable pub ldl_le_p : Memory → ℕ → ℕ
unfolding ldl_he_p
ldl_le_p m ptr = ldl_he_p m ptr

unfoldable pub ldq_le_p : Memory → ℕ → ℕ
unfolding ldq_he_p
ldq_le_p m ptr = ldq_he_p m ptr

unfoldable pub stw_le_p : Memory → ℕ → ℕ → Memory
unfolding stw_he_p
stw_le_p m ptr v = stw_he_p m ptr v

unfoldable pub stl_le_p : Memory → ℕ → ℕ → Memory
unfolding stl_he_p
stl_le_p m ptr v = stl_he_p m ptr v

unfoldable pub stq_le_p : Memory → ℕ → ℕ → Memory
unfolding stq_he_p
stq_le_p m ptr v = stq_he_p m ptr v

unfoldable pub ldsw_be_p : Memory → ℕ → ℕ
unfolding sext16 bswap16 lduw_he_p
ldsw_be_p m ptr = sext16 (u16 (bswap16 (lduw_he_p m ptr)))

-- `bswap16s`, `bswap32s` and `bswap64s`: a number is swapped in its place.
unfoldable pub bswap16s : Memory → ℕ → Memory
unfolding stw_he_p bswap16 lduw_he_p
bswap16s m s = stw_he_p m s (bswap16 (lduw_he_p m s))

unfoldable pub bswap32s : Memory → ℕ → Memory
unfolding stl_he_p bswap32 ldl_he_p
bswap32s m s = stl_he_p m s (bswap32 (ldl_he_p m s))

unfoldable pub bswap64s : Memory → ℕ → Memory
unfolding stq_he_p bswap64 ldq_he_p
bswap64s m s = stq_he_p m s (bswap64 (ldq_he_p m s))

-- `be_bswap` and `le_bswap`, whose size in bits is an argument.
pub data Size : Type 0 where
  bits16 bits32 bits64 : Size

unfoldable pub be_bswap : ℕ → Size → ℕ
unfolding bswap16 bswap32 bswap64
be_bswap v bits16 = bswap16 v
be_bswap v bits32 = bswap32 v
be_bswap v bits64 = bswap64 v

unfoldable pub le_bswap : ℕ → Size → ℕ
le_bswap v size = v

-- `be16_to_cpu`, `cpu_to_be16` and their kind, which `CPU_CONVERT` makes from the order's swap.
unfoldable pub to_cpu : (ℕ → Size → ℕ) → Size → ℕ → ℕ
to_cpu bswap size v = bswap v size

unfoldable pub cpu_to : (ℕ → Size → ℕ) → Size → ℕ → ℕ
cpu_to bswap size v = bswap v size

unfoldable pub qemu_bswap_len : ℕ → ℕ → ℕ
unfolding bswap32
qemu_bswap_len value len = bswap32 (u32 value) / 2 ^ (32 - 8 * len)

unfoldable pub leul_to_cpu : ℕ → ℕ
unfolding le_bswap
leul_to_cpu v = le_bswap v bits64
