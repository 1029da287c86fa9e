-- ===== src/Layout/Align.antt =====
-- What `HOST_PAGE_ALIGN` and `TARGET_PAGE_ALIGN` of proj/sparc-linux/cpu-all.h come to.
use sparcy.Base.{ℕ, ◌+◌, ◌-◌, ◌%◌, ◌^◌, ◌≤◌, ◌<◌, ◌≡◌, arith}
use sparcy.Brk.{page_align}

-- Below the last page the result is the next multiple of the page size.
pub page_align_bounds :
    (x : ℕ)
    → x ≤ 2 ^ 32 - 4096
    → (x ≤ page_align x) × (page_align x < x + 4096) × (page_align x % 4096 ≡ 0)
unfolding page_align
page_align_bounds x h = omega arith

-- In the last page the 32-bit sum wraps, and the result is 0.
pub page_align_wraps : (x : ℕ) → 2 ^ 32 - 4096 < x → x < 2 ^ 32 → page_align x ≡ 0
unfolding page_align
page_align_wraps x h k = omega arith

pub page_align-lt : (x : ℕ) → page_align x < 2 ^ 32
unfolding page_align
page_align-lt x = omega arith
