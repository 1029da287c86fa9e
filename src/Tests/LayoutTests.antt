-- ===== src/Tests/LayoutTests.antt =====
-- Tests of the heap and the mapped blocks of proj/sparc-linux/syscall.c.
use sparcy.Base.{◌+◌, ◌-◌, ◌^◌, ◌≤◌, ◌<◌, ◌≡◌, refl, ◌⊎◌, arith, neg32}
use sparcy.Errno.Host
use sparcy.Brk.{page_align, do_brk, set_brk}
use sparcy.Mmap.{target_mmap}
use sparcy.Memory.{memset}
use sparcy.Guest.{next, g2h}
use sparcy.Layout.{IsLaidOut}
use sparcy.Layout.Heap.{Ends, do_brk-Ends, do_brk_wraps}
use sparcy.Layout.Blocks.{target_mmap_grants, target_mmap_wraps}
use sparcy.Tests.Fixtures.{small_target, small_sys}

small_target-IsLaidOut : IsLaidOut 0x8000 small_target
small_target-IsLaidOut = omega arith

brk_up : (do_brk 0x8010 small_sys).0 ≡ next 0x9000
unfolding do_brk
brk_up = refl

brk_zeroes : (do_brk 0x8010 small_sys).1.memory 0x18fff ≡ 0
unfolding do_brk set_brk g2h memset
brk_zeroes = refl

mmap_up : (target_mmap 0 5000 3 0x22 (neg32 1) 0 small_sys).0 ≡ next 0x40000
unfolding target_mmap
mmap_up = refl

do_brk-Ends_example : Ends 0x8000 small_sys (do_brk 0x8010 small_sys)
do_brk-Ends_example = do_brk-Ends 0x8000 0x8010 small_sys small_target-IsLaidOut (omega arith)

do_brk_wraps_example :
    ((do_brk 0xffff_ffff small_sys).0 ≡ next 0)
    × ((do_brk 0xffff_ffff small_sys).1.target.target_brk ≡ 0)
do_brk_wraps_example = do_brk_wraps 0xffff_ffff small_sys (omega arith) (omega arith) (omega arith)

target_mmap_grants_example :
    let (r, s') = target_mmap 0 5000 3 0x22 (neg32 1) 0 small_sys in
    ((0x40000 + page_align 5000 < 0x80000)
      × (r ≡ next 0x40000)
      × (s'.target.target_cur_mmap_ptr ≡ 0x40000 + page_align 5000)
      × (5000 ≤ page_align 5000))
    ⊎ ((0x80000 ≤ 0x40000 + page_align 5000)
        × (r ≡ next (neg32 1))
        × (s'.errno ≡ Host.enomem)
        × (s'.target ≡ small_target))
target_mmap_grants_example =
    target_mmap_grants 0x8000 0 5000 3 0x22 (neg32 1) 0 small_sys small_target-IsLaidOut
      (omega arith) refl refl

-- A block of 0xfffc_1000 bytes is granted, and the pointer falls back to 0x1000.
target_mmap_wraps_example :
    let (r, s') = target_mmap 0 0xfffc_1000 3 0x22 (neg32 1) 0 small_sys in
    (r ≡ next 0x40000)
    × (s'.target.target_cur_mmap_ptr + (2 ^ 32 - page_align 0xfffc_1000) ≡ 0x40000)
    × (s'.target.target_cur_mmap_ptr < 0x40000)
unfolding page_align
target_mmap_wraps_example =
    target_mmap_wraps 0x8000 0 0xfffc_1000 3 0x22 (neg32 1) 0 small_sys small_target-IsLaidOut refl
      refl (omega arith) (omega arith)
