-- ===== src/Layout/Blocks.antt =====
-- What `target_mmap` of proj/sparc-linux/syscall.c hands out.
use sparcy.Base.{ℕ, ◌+◌, ◌-◌, ◌^◌, ◌≤◌, ◌<◌, ◌≡◌, ◌⊎◌, true, arith, bit_and, is_neg32, neg32}
use sparcy.Errno.Host
use sparcy.Guest.{Sys, next}
use sparcy.Brk.{page_align}
use sparcy.Mmap.{target_mmap, map_fixed}
use sparcy.Layout.{IsLaidOut}
use sparcy.Layout.Align.{page_align_bounds, page_align-lt}

-- What every request leaves: the layout, the heap, the memory, and a pointer that has not moved down.
pub record Advances (floor : ℕ) (s s' : Sys) : Type 0 where
  pub laid_out : IsLaidOut floor s'.target
  pub heap_kept : s'.target.target_brk ≡ s.target.target_brk
  pub memory_kept : s'.memory ≡ s.memory
  pub never_down : s.target.target_cur_mmap_ptr ≤ s'.target.target_cur_mmap_ptr

-- Whatever its other arguments are, a request for at most 2 GiB less a page keeps the layout, the heap and
-- the memory, and never moves the pointer down.
pub target_mmap-Advances :
    (floor start len prot flags fd offset : ℕ) (s : Sys)
    → IsLaidOut floor s.target
    → len ≤ 2 ^ 31 - 4096
    → Advances floor s (target_mmap start len prot flags fd offset s).1
unfolding target_mmap
target_mmap-Advances floor start len prot flags fd offset s l small =
    ground (arith, page_align_bounds len)

-- Where the memory has its layout, an anonymous request without MAP_FIXED for at most 2 GiB less a page
-- gets the next free block, from the old pointer to the new one, exactly when the block ends below the
-- limit of the mapped part; otherwise it fails with ENOMEM and the pointers stay.
pub target_mmap_grants :
    (floor start len prot flags fd offset : ℕ) (s : Sys)
    → IsLaidOut floor s.target
    → len ≤ 2 ^ 31 - 4096
    → is_neg32 fd ≡ true
    → bit_and flags map_fixed ≡ 0
    → let t = s.target in
      let (r, s') = target_mmap start len prot flags fd offset s in
      ((t.target_cur_mmap_ptr + page_align len < t.target_mmap_limit)
        × (r ≡ next t.target_cur_mmap_ptr)
        × (s'.target.target_cur_mmap_ptr ≡ t.target_cur_mmap_ptr + page_align len)
        × (len ≤ page_align len))
      ⊎ ((t.target_mmap_limit ≤ t.target_cur_mmap_ptr + page_align len)
          × (r ≡ next (neg32 1))
          × (s'.errno ≡ Host.enomem)
          × (s'.target ≡ t))
unfolding target_mmap
target_mmap_grants floor start len prot flags fd offset s l small anonymous unfixed =
    ground (arith, page_align_bounds len)

-- Where the memory has its layout, and the 32-bit sum of the pointer and the page end of an anonymous
-- request without MAP_FIXED wraps below the limit, the request succeeds at the old pointer, and the
-- pointer moves down, by what the page end lacks of 4 GiB.
pub target_mmap_wraps :
    (floor start len prot flags fd offset : ℕ) (s : Sys)
    → IsLaidOut floor s.target
    → is_neg32 fd ≡ true
    → bit_and flags map_fixed ≡ 0
    → 2 ^ 32 ≤ page_align len + s.target.target_cur_mmap_ptr
    → page_align len + s.target.target_cur_mmap_ptr < 2 ^ 32 + s.target.target_mmap_limit
    → let t = s.target in
      let (r, s') = target_mmap start len prot flags fd offset s in
      (r ≡ next t.target_cur_mmap_ptr)
      × (s'.target.target_cur_mmap_ptr + (2 ^ 32 - page_align len) ≡ t.target_cur_mmap_ptr)
      × (s'.target.target_cur_mmap_ptr < t.target_cur_mmap_ptr)
unfolding target_mmap
target_mmap_wraps floor start len prot flags fd offset s l anonymous unfixed over back =
    ground (arith, page_align-lt len)
