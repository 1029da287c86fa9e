-- ===== src/Layout.antt =====
-- How proj/sparc-linux/syscall.c divides the guest's memory: the heap up to `target_brk_limit`, and
-- above it the mapped blocks up to `target_mmap_limit`. The heap's floor is the break that `sl_init`
-- was given.
pub mod Align
pub mod Heap
pub mod Blocks
use sparcy.Base.{ℕ, ◌+◌, ◌%◌, ◌^◌, ◌≤◌, ◌≡◌}
use sparcy.Guest.{Target}

pub record IsLaidOut (floor : ℕ) (t : Target) : Type 0 where
  pub above_floor : floor ≤ t.target_brk
  pub heap_fits : t.target_brk ≤ t.target_brk_limit
  pub blocks_above : t.target_brk_limit ≤ t.target_cur_mmap_ptr
  pub blocks_fit : t.target_cur_mmap_ptr ≤ t.target_mmap_limit
  pub half_of_memory : t.target_mmap_limit ≤ 2 ^ 31
  pub host_fits : t.guest_base + 2 ^ 32 ≤ 2 ^ 64
