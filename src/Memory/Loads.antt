-- ===== src/Memory/Loads.antt =====
-- Loads of proj/sparc-linux/bswap.h after stores elsewhere, and the swap of a number in its place.
use sparcy.Base.{ℕ, ◌+◌, ◌^◌, ◌≤◌, ◌<◌, ◌≡◌, refl, ap, ◌⊎◌, arith, ◌∙◌}
use sparcy.Memory.{
  Memory, stb_p, ldub_p, lduw_he_p, ldl_he_p, ldq_he_p, stw_he_p, stl_he_p, stq_he_p, lduw_be_p,
  ldq_be_p, stw_be_p, stq_be_p, tswap16, tswap64, bswap16, bswap32, bswap64, ldl_be_p,
}
use sparcy.Memory.Accessors.{ld_be_p-st_be_p}

pub lduw_he_p-same :
    (m m' : Memory) (p : ℕ)
    → ((q : ℕ) → p ≤ q → q < p + 2 → m' q ≡ m q)
    → lduw_he_p m' p ≡ lduw_he_p m p
unfolding lduw_he_p ldub_p
lduw_he_p-same m m' p k =
    rw (k p (omega arith) (omega arith), k (p + 1) (omega arith) (omega arith)) refl

pub ldl_he_p-same :
    (m m' : Memory) (p : ℕ)
    → ((q : ℕ) → p ≤ q → q < p + 4 → m' q ≡ m q)
    → ldl_he_p m' p ≡ ldl_he_p m p
unfolding ldl_he_p
ldl_he_p-same m m' p k =
    rw
      (
        lduw_he_p-same m m' p (λ q h h'. k q h (omega arith)),
        lduw_he_p-same m m' (p + 2) (λ q h h'. k q (omega arith) (omega arith)),
      )
      refl

pub ldq_he_p-same :
    (m m' : Memory) (p : ℕ)
    → ((q : ℕ) → p ≤ q → q < p + 8 → m' q ≡ m q)
    → ldq_he_p m' p ≡ ldq_he_p m p
unfolding ldq_he_p
ldq_he_p-same m m' p k =
    rw
      (
        ldl_he_p-same m m' p (λ q h h'. k q h (omega arith)),
        ldl_he_p-same m m' (p + 4) (λ q h h'. k q (omega arith) (omega arith)),
      )
      refl

pub stw_he_p_outside : (m : Memory) (p v q : ℕ) → (q < p) ⊎ (p + 2 ≤ q) → stw_he_p m p v q ≡ m q
unfolding stw_he_p stb_p
stw_he_p_outside m p v q h = ground arith

pub stq_he_p_outside : (m : Memory) (p v q : ℕ) → (q < p) ⊎ (p + 8 ≤ q) → stq_he_p m p v q ≡ m q
unfolding stq_he_p stl_he_p stw_he_p stb_p
stq_he_p_outside m p v q h = ground arith

lduw_he_p-lt : (m : Memory) (p : ℕ) → lduw_he_p m p < 2 ^ 16
unfolding lduw_he_p ldub_p
lduw_he_p-lt m p = omega arith

ldq_he_p-lt : (m : Memory) (p : ℕ) → ldq_he_p m p < 2 ^ 64
unfolding ldq_he_p ldl_he_p lduw_he_p ldub_p
ldq_he_p-lt m p = omega arith

-- A number that the host left, swapped in its place, is what the guest reads there.
pub lduw_be_p-tswap16 :
    (m : Memory) (p : ℕ) → lduw_be_p (stw_he_p m p (tswap16 (lduw_he_p m p))) p ≡ lduw_he_p m p
unfolding stw_be_p tswap16
lduw_be_p-tswap16 m p = (ld_be_p-st_be_p m p (lduw_he_p m p)).0 ∙ omega (arith, lduw_he_p-lt m p)

pub ldq_be_p-tswap64 :
    (m : Memory) (p : ℕ) → ldq_be_p (stq_he_p m p (tswap64 (ldq_he_p m p))) p ≡ ldq_he_p m p
unfolding stq_be_p tswap64
ldq_be_p-tswap64 m p = (ld_be_p-st_be_p m p (ldq_he_p m p)).2 ∙ omega (arith, ldq_he_p-lt m p)

pub lduw_be_p-same :
    (m m' : Memory) (p : ℕ)
    → ((q : ℕ) → p ≤ q → q < p + 2 → m' q ≡ m q)
    → lduw_be_p m' p ≡ lduw_be_p m p
lduw_be_p-same m m' p k = unfold lduw_be_p in ap bswap16 (lduw_he_p-same m m' p k)

pub ldl_be_p-same :
    (m m' : Memory) (p : ℕ)
    → ((q : ℕ) → p ≤ q → q < p + 4 → m' q ≡ m q)
    → ldl_be_p m' p ≡ ldl_be_p m p
ldl_be_p-same m m' p k = unfold ldl_be_p in ap bswap32 (ldl_he_p-same m m' p k)

pub ldq_be_p-same :
    (m m' : Memory) (p : ℕ)
    → ((q : ℕ) → p ≤ q → q < p + 8 → m' q ≡ m q)
    → ldq_be_p m' p ≡ ldq_be_p m p
ldq_be_p-same m m' p k = unfold ldq_be_p in ap bswap64 (ldq_he_p-same m m' p k)
