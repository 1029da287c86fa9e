-- ===== src/Memory/Accessors.antt =====
-- The byte order of the accessors in proj/sparc-linux/bswap.h: what they store and read back.
use sparcy.Base.{ℕ, ◌+◌, ◌*◌, ◌/◌, ◌%◌, ◌^◌, ◌<◌, ◌≡◌, ◌∙◌, arith}
use sparcy.Memory.{
  Memory, bswap16, bswap32, bswap64, stw_he_p, stl_he_p, stq_he_p, lduw_he_p, ldl_he_p, ldq_he_p,
  stl_be_p, stq_be_p, ldl_be_p, ldq_be_p, stw_be_p, lduw_be_p,
}

pub bswap16-bswap16 : (x : ℕ) → x < 2 ^ 16 → bswap16 (bswap16 x) ≡ x
unfolding bswap16
bswap16-bswap16 x h = omega arith

pub bswap16-lt : (x : ℕ) → bswap16 x < 2 ^ 16
unfolding bswap16
bswap16-lt x = omega arith

-- Swapping a word swaps its halves, and the bytes in each.
bswap32_halves :
    (a b : ℕ) → a < 65536 → b < 65536 → bswap32 (a * 65536 + b) ≡ bswap16 b * 65536 + bswap16 a
bswap32_halves a b ha hb =
    let low : (a * 65536 + b) % 65536 ≡ b = omega arith in
    let high : (a * 65536 + b) / 65536 % 65536 ≡ a = omega arith in unfold bswap32 in rw (low, high)

pub bswap32-lt : (x : ℕ) → bswap32 x < 2 ^ 32
bswap32-lt x =
    unfold bswap32 in omega (arith, bswap16-lt (x % 65536), bswap16-lt (x / 65536 % 65536))

pub bswap32-bswap32 : (x : ℕ) → x < 2 ^ 32 → bswap32 (bswap32 x) ≡ x
bswap32-bswap32 x h =
    let a = bswap16 (x % 65536) in
    let b = bswap16 (x / 65536 % 65536) in
    let open_once : bswap32 x ≡ a * 65536 + b = unfold bswap32 in omega arith in
    rw open_once (
      omega (
        arith,
        bswap32_halves a b (bswap16-lt (x % 65536)) (bswap16-lt (x / 65536 % 65536)),
        bswap16-bswap16 (x % 65536) (omega arith),
        bswap16-bswap16 (x / 65536 % 65536) (omega arith),
      ))

bswap64_halves :
    (a b : ℕ)
    → a < 2 ^ 32
    → b < 2 ^ 32
    → bswap64 (a * 4294967296 + b) ≡ bswap32 b * 4294967296 + bswap32 a
bswap64_halves a b ha hb =
    let low : (a * 4294967296 + b) % 4294967296 ≡ b = omega arith in
    let high : (a * 4294967296 + b) / 4294967296 % 4294967296 ≡ a = omega arith in
    unfold bswap64 in rw (low, high)

pub bswap64-lt : (x : ℕ) → bswap64 x < 2 ^ 64
bswap64-lt x =
    unfold bswap64 in
    omega (arith, bswap32-lt (x % 4294967296), bswap32-lt (x / 4294967296 % 4294967296))

pub bswap64-bswap64 : (x : ℕ) → x < 2 ^ 64 → bswap64 (bswap64 x) ≡ x
bswap64-bswap64 x h =
    let lo = x % 4294967296 in
    let hi = x / 4294967296 % 4294967296 in
    let open_once : bswap64 x ≡ bswap32 lo * 4294967296 + bswap32 hi =
      unfold bswap64 in omega arith in
    rw open_once (
      omega (
        arith,
        bswap64_halves (bswap32 lo) (bswap32 hi) (bswap32-lt lo) (bswap32-lt hi),
        bswap32-bswap32 lo (omega arith),
        bswap32-bswap32 hi (omega arith),
      ))

-- What was stored at a place is read back there.
lduw_he_p-stw_he_p : (m : Memory) (p v : ℕ) → lduw_he_p (stw_he_p m p v) p ≡ v % 2 ^ 16
unfolding lduw_he_p stw_he_p
lduw_he_p-stw_he_p m p v = ground arith

-- A half-word store leaves the half-words beside it.
lduw_he_p-stw_he_p_above :
    (m : Memory) (p q v : ℕ) → q + 2 < p + 1 → lduw_he_p (stw_he_p m p v) q ≡ lduw_he_p m q
unfolding lduw_he_p stw_he_p
lduw_he_p-stw_he_p_above m p q v h = ground arith

ldl_he_p-stl_he_p : (m : Memory) (p v : ℕ) → ldl_he_p (stl_he_p m p v) p ≡ v % 2 ^ 32
ldl_he_p-stl_he_p m p v =
    unfold ldl_he_p stl_he_p in
    omega (
      arith,
      lduw_he_p-stw_he_p (stw_he_p m p v) (p + 2) (v / 65536),
      lduw_he_p-stw_he_p m p v,
      lduw_he_p-stw_he_p_above (stw_he_p m p v) (p + 2) p (v / 65536) (omega arith),
    )

ldl_he_p-stl_he_p_above :
    (m : Memory) (p q v : ℕ) → q + 4 < p + 1 → ldl_he_p (stl_he_p m p v) q ≡ ldl_he_p m q
ldl_he_p-stl_he_p_above m p q v h =
    unfold ldl_he_p stl_he_p in
    omega (
      arith,
      lduw_he_p-stw_he_p_above (stw_he_p m p v) (p + 2) q (v / 65536) (omega arith),
      lduw_he_p-stw_he_p_above (stw_he_p m p v) (p + 2) (q + 2) (v / 65536) (omega arith),
      lduw_he_p-stw_he_p_above m p q v (omega arith),
      lduw_he_p-stw_he_p_above m p (q + 2) v (omega arith),
    )

ldq_he_p-stq_he_p : (m : Memory) (p v : ℕ) → ldq_he_p (stq_he_p m p v) p ≡ v % 2 ^ 64
ldq_he_p-stq_he_p m p v =
    unfold ldq_he_p stq_he_p in
    omega (
      arith,
      ldl_he_p-stl_he_p (stl_he_p m p v) (p + 4) (v / 4294967296),
      ldl_he_p-stl_he_p m p v,
      ldl_he_p-stl_he_p_above (stl_he_p m p v) (p + 4) p (v / 4294967296) (omega arith),
    )

-- A cast to the width first changes nothing.
bswap16-mod : (x : ℕ) → bswap16 (x % 2 ^ 16) ≡ bswap16 x
unfolding bswap16
bswap16-mod x = omega arith

bswap32-mod : (x : ℕ) → bswap32 (x % 2 ^ 32) ≡ bswap32 x
bswap32-mod x =
    let low : x % 2 ^ 32 % 65536 ≡ x % 65536 = omega arith in
    let high : x % 2 ^ 32 / 65536 % 65536 ≡ x / 65536 % 65536 = omega arith in
    unfold bswap32 in rw (low, high)

bswap64-mod : (x : ℕ) → bswap64 (x % 2 ^ 64) ≡ bswap64 x
bswap64-mod x =
    let low : x % 2 ^ 64 % 4294967296 ≡ x % 4294967296 = omega arith in
    let high : x % 2 ^ 64 / 4294967296 % 4294967296 ≡ x / 4294967296 % 4294967296 = omega arith in
    unfold bswap64 in rw (low, high)

-- What `__put_user` stores at 16, 32 or 64 bits is read back by `__get_user`, cut to that width.
pub ld_be_p-st_be_p :
    (m : Memory) (p v : ℕ)
    → (lduw_be_p (stw_be_p m p v) p ≡ v % 2 ^ 16)
      × (ldl_be_p (stl_be_p m p v) p ≡ v % 2 ^ 32)
      × (ldq_be_p (stq_be_p m p v) p ≡ v % 2 ^ 64)
ld_be_p-st_be_p m p v =
    unfold lduw_be_p stw_be_p ldl_be_p stl_be_p ldq_be_p stq_be_p in
    (
      rw (lduw_he_p-stw_he_p, bswap16-mod, ← bswap16-mod v)
          (bswap16-bswap16 (v % 2 ^ 16) (omega arith)),
      rw (ldl_he_p-stl_he_p, bswap32-mod, ← bswap32-mod v)
          (bswap32-bswap32 (v % 2 ^ 32) (omega arith)),
      rw (ldq_he_p-stq_he_p, bswap64-mod, ← bswap64-mod v)
          (bswap64-bswap64 (v % 2 ^ 64) (omega arith)),
    )

-- A host-endian store puts the low byte first.
stl_he_p_bytes :
    (m : Memory) (p v : ℕ)
    → (stl_he_p m p v p ≡ v % 256)
      × (stl_he_p m p v (p + 1) ≡ v / 256 % 256)
      × (stl_he_p m p v (p + 2) ≡ v / 65536 % 256)
      × (stl_he_p m p v (p + 3) ≡ v / 65536 / 256 % 256)
unfolding stl_he_p
stl_he_p_bytes m p v = (ground arith, ground arith, ground arith, ground arith)

-- A word in guest memory stands in the target's order, its highest byte first.
pub stl_be_p_bytes :
    (m : Memory) (p v : ℕ)
    → (stl_be_p m p v p ≡ v / 2 ^ 24 % 256)
      × (stl_be_p m p v (p + 1) ≡ v / 2 ^ 16 % 256)
      × (stl_be_p m p v (p + 2) ≡ v / 2 ^ 8 % 256)
      × (stl_be_p m p v (p + 3) ≡ v % 256)
stl_be_p_bytes m p v =
    let h = stl_he_p_bytes m p (bswap32 v) in
    unfold stl_be_p in (h.0 ∙ swapped.0, h.1 ∙ swapped.1, h.2 ∙ swapped.2, h.3 ∙ swapped.3)
  where
    swapped :
        (bswap32 v % 256 ≡ v / 2 ^ 24 % 256)
        × (bswap32 v / 256 % 256 ≡ v / 2 ^ 16 % 256)
        × (bswap32 v / 65536 % 256 ≡ v / 2 ^ 8 % 256)
        × (bswap32 v / 65536 / 256 % 256 ≡ v % 256)
    swapped = unfold bswap32 bswap16 in omega arith
