-- ===== src/Mmap.antt =====
-- `target_mmap` and `target_munmap` of proj/sparc-linux/syscall.c: a pointer that moves up.
use sparcy.Base.{ℕ, ◌+◌, ltb, if◌then◌else◌, u32, neg32, bit_and, ◌==◌, is_neg32, not}
use sparcy.Errno.Host
use sparcy.Brk.{page_align}
use sparcy.Guest.{M, next}

-- The host's MAP_FIXED
abbrev pub map_fixed : ℕ
map_fixed = 0x10

unfoldable pub target_mmap : ℕ → ℕ → ℕ → ℕ → ℕ → ℕ → M ℕ
unfolding page_align
target_mmap start len prot flags fd offset s =
    if not (is_neg32 fd)
    then (next (neg32 1), record s { errno = Host.einval })
    else if not (bit_and flags map_fixed == 0)
    then (next (neg32 1), record s { errno = Host.einval })
    else let aligned = page_align len in
      let t = s.target in
      if ltb (u32 (aligned + t.target_cur_mmap_ptr)) t.target_mmap_limit
      then (
        next t.target_cur_mmap_ptr,
        record s {
          target = record t { target_cur_mmap_ptr = u32 (t.target_cur_mmap_ptr + aligned) };
        },
      )
      else (next (neg32 1), record s { errno = Host.enomem })

unfoldable pub target_munmap : ℕ → ℕ → M ℕ
target_munmap start len s = (next 0, s)
