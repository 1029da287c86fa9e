-- ===== src/Brk.antt =====
-- `do_brk` of proj/sparc-linux/syscall.c: the heap's end moves up, never down.
use sparcy.Base.{ℕ, ◌+◌, ◌-◌, ◌*◌, ◌/◌, ◌==◌, ltb, leb, if◌then◌else◌, u32}
use sparcy.Memory.{memset}
use sparcy.Guest.{Sys, M, next, g2h}

-- `HOST_PAGE_ALIGN` and `TARGET_PAGE_ALIGN` at an abi_ulong: both page sizes are 4096, the sum is
-- taken in 32 bits, and the mask clears the low 12.
unfoldable pub page_align : ℕ → ℕ
page_align addr = u32 (addr + 4095) / 4096 * 4096

-- The branch in which the break moves, to `new_brk`, which is aligned.
unfoldable pub set_brk : ℕ → Sys → Sys
set_brk new_brk s =
    let t = s.target in
    record s {
      target = record t { target_brk = new_brk };
      memory =
          if ltb t.target_brk new_brk
          then memset s.memory (g2h t t.target_brk) 0 (new_brk - t.target_brk)
          else s.memory;
    }

unfoldable pub do_brk : ℕ → M ℕ
unfolding page_align set_brk
do_brk new_brk s =
    if new_brk == 0
    then (next s.target.target_brk, s)
    else if ltb new_brk s.target.target_brk
    then (next s.target.target_brk, s)
    else if leb (page_align new_brk) s.target.target_brk_limit
    then (next (page_align new_brk), set_brk (page_align new_brk) s)
    else (next s.target.target_brk, s)
