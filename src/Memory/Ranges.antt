-- ===== src/Memory/Ranges.antt =====
-- Which bytes the stores, `memset` and `memcpy` of proj/sparc-linux change.
use sparcy.Base.{ℕ, zero, suc, ◌+◌, ◌≤◌, ◌<◌, ◌≡◌, refl, ◌⊎◌, arith, u8}
use sparcy.Memory.{Memory, stb_p, memset, memcpy, stl_he_p, stl_be_p}

-- A word store leaves every byte outside its four.
pub stl_be_p_outside : (m : Memory) (p v q : ℕ) → (q < p) ⊎ (p + 4 ≤ q) → stl_be_p m p v q ≡ m q
unfolding stl_be_p stl_he_p
stl_be_p_outside m p v q h = ground arith

pub memset_outside : (m : Memory) (p c n q : ℕ) → (q < p) ⊎ (p + n ≤ q) → memset m p c n q ≡ m q
unfolding memset
memset_outside m p c zero q h = refl
memset_outside m p c (suc n) q h = ground (arith, memset_outside (stb_p m p c) (p + 1) c n q)

pub memset_inside : (m : Memory) (p c n q : ℕ) → p ≤ q → q < p + n → memset m p c n q ≡ u8 c
unfolding memset
memset_inside m p c zero q h k = absurd (omega arith)
memset_inside m p c (suc n) q h k =
    ground
      (arith, memset_inside (stb_p m p c) (p + 1) c n q, memset_outside (stb_p m p c) (p + 1) c n q)

pub memcpy_outside :
    (m : Memory) (to from n q : ℕ) → (q < to) ⊎ (to + n ≤ q) → memcpy m to from n q ≡ m q
unfolding memcpy
memcpy_outside m to from zero q h = refl
memcpy_outside m to from (suc n) q h =
    ground (arith, memcpy_outside (stb_p m to (m from)) (to + 1) (from + 1) n q)
